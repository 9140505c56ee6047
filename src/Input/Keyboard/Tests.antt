-- ===== src/Input/Keyboard/Tests.antt =====
-- Letters and a shift key.
use baby_osv.Base.{ℕ, ◌≡◌, refl, false, List, [], ◌∷◌, ◌++◌, map, ◌==◌, if◌then◌else◌, update}
use baby_osv.Threads.Scheduler.{Machine, running}
use baby_osv.Input.Keyboard.{Layout, Keyboard, KeyEvent, is_key_pressed, fifo_add}
use baby_osv.Input.Keyboard.Held.{receive, last_of, get_or_else, strokes, stroke_of, receive_lem}

abbrev machine : Machine
machine = record { current_thread = 1; state = λ t. running; threads = []; threads_queue = [] }

-- The keys have the numbers of their scan codes; 16 is `q`, and 42 the left shift.
abbrev layout : Layout
layout = record {
  key_of = λ c. c;
  ascii_low = λ k. if k == 16 then b'q' else 0;
  ascii_high = λ k. if k == 16 then b'Q' else 0;
  left_shift = 42;
  right_shift = 54;
  left_alt = 56;
  right_alt = 100;
  left_control = 29;
  right_control = 97;
  left_meta = 125;
  right_meta = 126;
}

abbrev untouched : Keyboard
untouched = record {
  keys_map = λ k. false;
  events = [];
  irq_signal = record { raised = false; waiting_threads = [] };
}

-- Shift and `q` go down, then both up.
abbrev codes : List ℕ
codes = 42 ∷ 16 ∷ 144 ∷ 170 ∷ []

capital :
    map (λ (e : KeyEvent). e.ascii) (receive layout codes (untouched, machine)).0.events
    ≡ 0 ∷ b'Q' ∷ 0 ∷ 0 ∷ []
unfolding fifo_add update
capital = refl

receive_lem_example :
    ((key : ℕ)
      → is_key_pressed key (receive layout codes (untouched, machine)).0
        ≡ get_or_else (is_key_pressed key untouched) (last_of layout key codes))
    × (map stroke_of (receive layout codes (untouched, machine)).0.events
        ≡ map stroke_of untouched.events ++ strokes layout codes)
receive_lem_example = receive_lem layout codes untouched machine
