-- ===== src/Input/Mouse/Tests.antt =====
-- A click and a movement.
use baby_osv.Base.{◌≡◌, refl, true, false, List, [], ◌∷◌, ◌++◌}
use baby_osv.Threads.Scheduler.{Machine, running}
use baby_osv.Input.Mouse.{Mouse, movement, button_click, left, receive, fifo_add, decode}
use baby_osv.Input.Mouse.Packets.{Packet, bytes_of, events_of, buttons_after, receive-bytes_of}

abbrev machine : Machine
machine = record { current_thread = 1; state = λ t. running; threads = []; threads_queue = [] }

abbrev at_rest : Mouse
at_rest = record {
  data_buffer = [];
  events = [];
  buttons_states = record { left_down = false; middle_down = false; right_down = false };
  irq_signal = record { raised = false; waiting_threads = [] };
}

-- The left button goes down; then the mouse moves left by two, with the button held.
abbrev drag : List Packet
drag =
    record {
      left_is_down = true;
      right_is_down = false;
      middle_is_down = false;
      x = record { is_negative = false; low = 0 };
      y = record { is_negative = false; low = 0 };
    }
    ∷ record {
      left_is_down = true;
      right_is_down = false;
      middle_is_down = false;
      x = record { is_negative = true; low = 254 };
      y = record { is_negative = false; low = 0 };
    }
    ∷ []

dragged :
    (receive (bytes_of drag) (at_rest, machine)).0.events
    ≡ button_click left ∷ movement 0xfffffffe 0 ∷ []
unfolding fifo_add decode
dragged = refl

receive-bytes_of_example :
    ((receive (bytes_of drag) (at_rest, machine)).0.events
      ≡ [] ++ events_of at_rest.buttons_states drag)
    × ((receive (bytes_of drag) (at_rest, machine)).0.buttons_states
        ≡ buttons_after at_rest.buttons_states drag)
    × ((receive (bytes_of drag) (at_rest, machine)).0.data_buffer ≡ [])
receive-bytes_of_example = receive-bytes_of drag at_rest machine refl
