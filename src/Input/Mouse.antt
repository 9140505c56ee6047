-- ===== src/Input/Mouse.antt =====
-- kernel/Input/Mouse.cpp, the decoding of the bytes that the mouse sends. The array `dataBuffer` and the
-- list `events` are the lists of their elements; `irqSignal` stands with the threads that wait for it. What
-- the controller is told at the start is left out, and the handlers run in a thread of their own.
pub mod Packets
mod Tests
use baby_osv.Base.{
  ℕ, zero, suc, ◌+◌, ◌*◌, ◌/◌, ◌%◌, ◌^◌, Bool, true, false, not, ◌&&◌, ◌||◌, Option, none, some,
  List, [], ◌∷◌, ◌++◌, ltb, leb, ◌==◌, if◌then◌else◌, length,
}
use baby_osv.Threads.Scheduler.{Machine, Signal, raise}

pub data Button : Type 0 where
  left middle right : Button

-- `Event`; the coordinates of a movement are 32-bit words in two's complement.
pub data Event : Type 0 where
  movement : ℕ → ℕ → Event
  button_click button_release : Button → Event

-- The bits of a `MouseStream`'s first byte, by number: the buttons are 0, 1 and 2, `_unused` is 3, and the
-- signs are 4 and 5.
abbrev pub bit : ℕ → ℕ → Bool
bit n byte = byte / 2 ^ n % 2 == 1

-- `buttonsStates`
pub record Buttons : Type 0 where
  pub left_down : Bool
  pub middle_down : Bool
  pub right_down : Bool

pub record Mouse : Type 0 where
  pub data_buffer : List ℕ
  pub events : List Event
  pub buttons_states : Buttons
  pub irq_signal : Signal

abbrev pub differ : Bool → Bool → Bool
differ true b = not b
differ false b = b

-- The event of a button whose state changed.
abbrev pub button_events : Button → Bool → Bool → List Event
button_events b now before =
    if differ now before then ((if now then button_click b else button_release b) ∷ []) else []

abbrev pub extend_sign : Bool → ℕ → ℕ
extend_sign sign value = if sign then value + 0xffffff00 else value

abbrev pub movement_events : ℕ → ℕ → List Event
movement_events x y = if not (x == 0) || not (y == 0) then movement x y ∷ [] else []

-- What a packet adds to the events.
unfoldable pub decode : Buttons → ℕ → ℕ → ℕ → List Event
decode before first x y =
    button_events left (bit 0 first) before.left_down
    ++ (button_events middle (bit 2 first) before.middle_down
        ++ (button_events right (bit 1 first) before.right_down
            ++ movement_events (extend_sign (bit 4 first) x) (extend_sign (bit 5 first) y)))

abbrev pub buttons_of : ℕ → Buttons
buttons_of first = record {
  left_down = bit 0 first;
  middle_down = bit 2 first;
  right_down = bit 1 first;
}

-- What `FIFOAdd` does with the bytes that are in the buffer.
unfoldable pub consume : List ℕ → Mouse → Machine → Mouse × Machine
unfolding decode raise
consume (first ∷ x ∷ y ∷ rest) mouse m =
    if bit 3 first
    then (
      record {
        data_buffer = [];
        events = mouse.events ++ decode mouse.buttons_states first x y;
        buttons_states = buttons_of first;
        irq_signal = (raise mouse.irq_signal m).0;
      },
      (raise mouse.irq_signal m).1,
    )
    else (record mouse { data_buffer = x ∷ y ∷ rest }, m)
consume bytes mouse m = (record mouse { data_buffer = bytes }, m)

unfoldable pub fifo_add : ℕ → Mouse → Machine → Mouse × Machine
unfolding consume
fifo_add v mouse m = consume (mouse.data_buffer ++ (v ∷ [])) mouse m

-- The bytes of a stream, one after the other.
abbrev pub receive : List ℕ → Mouse × Machine → Mouse × Machine
receive [] s = s
receive (v ∷ vs) (mouse, m) = receive vs (fifo_add v mouse m)
