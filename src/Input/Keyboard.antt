-- ===== src/Input/Keyboard.antt =====
-- kernel/Input/Keyboard.cpp, and the dispatch of the bytes in kernel/Input/PS2.cpp. The build generates the
-- tables of keys and characters: they are a parameter. A `KeyCode` is a number, and `None` is 0. An entry of
-- `keys_map` is one bit of `keysMap`, bit `key % 8` of byte `key / 8`. The interrupt of F12 returns.
pub mod Held
mod Tests
use baby_osv.Base.{
  ℕ, zero, suc, ◌+◌, ◌%◌, Bool, true, false, not, ◌&&◌, ◌||◌, Option, none, some, List, [], ◌∷◌,
  ◌++◌, ltb, leb, ◌==◌, if◌then◌else◌, update,
}
use baby_osv.Threads.Scheduler.{Machine, Signal, raise, wait}
use baby_osv.Input.Mouse.{Mouse}
use baby_osv.Input.Mouse

-- `scanCode2Key`, the characters of `keyInfo`, and the keys that the code names.
pub record Layout : Type 0 where
  pub key_of : ℕ → ℕ
  pub ascii_low : ℕ → ℕ
  pub ascii_high : ℕ → ℕ
  pub left_shift : ℕ
  pub right_shift : ℕ
  pub left_alt : ℕ
  pub right_alt : ℕ
  pub left_control : ℕ
  pub right_control : ℕ
  pub left_meta : ℕ
  pub right_meta : ℕ

-- `KeyMod`, by its bits.
pub record KeyMod : Type 0 where
  pub shift : Bool
  pub control : Bool
  pub alt : Bool
  pub meta : Bool

pub record KeyEvent : Type 0 where
  pub pressed : Bool
  pub key : ℕ
  pub modifiers : KeyMod
  pub ascii : ℕ

pub record Keyboard : Type 0 where
  pub keys_map : ℕ → Bool
  pub events : List KeyEvent
  pub irq_signal : Signal

abbrev pub is_key_pressed : ℕ → Keyboard → Bool
is_key_pressed key k = k.keys_map key

abbrev pub modifiers_of : Layout → (ℕ → Bool) → KeyMod
modifiers_of l map = record {
  shift = map l.left_shift || map l.right_shift;
  control = map l.left_control || map l.right_control;
  alt = map l.left_alt || map l.right_alt;
  meta = map l.left_meta || map l.right_meta;
}

abbrev pub ascii_of : Layout → Bool → Bool → ℕ → ℕ
ascii_of l pressed shift key =
    if not pressed
    then 0
    else if shift && not (l.ascii_high key == 0)
    then l.ascii_high key
    else l.ascii_low key

abbrev pub event_of : Layout → Bool → ℕ → (ℕ → Bool) → KeyEvent
event_of l pressed key map = record {
  pressed = pressed;
  key = key;
  modifiers = modifiers_of l map;
  ascii = ascii_of l pressed (modifiers_of l map).shift key;
}

unfoldable pub add_event : KeyEvent → Keyboard → Machine → Keyboard × Machine
unfolding raise
add_event e k m =
    let (signal, n) = raise k.irq_signal m in
    (record k { events = k.events ++ (e ∷ []); irq_signal = signal }, n)

unfoldable pub press_or_release : Layout → Bool → ℕ → Keyboard → Machine → Keyboard × Machine
unfolding add_event
press_or_release l pressed key k m =
    let map = update k.keys_map key pressed in
    add_event (event_of l pressed key map) (record k { keys_map = map }) m

-- The byte 0xe0 announces a key of the extended set, which is then taken for the plain one.
unfoldable pub fifo_add : Layout → ℕ → Keyboard → Machine → Keyboard × Machine
unfolding press_or_release
fifo_add l v k m =
    let key = l.key_of (v % 128) in
    if v == 0xe0
    then (k, m)
    else if key == 0
    then (k, m)
    else press_or_release l (ltb v 128) key k m

unfoldable pub read_event : Keyboard → Option KeyEvent × Keyboard
read_event k = elim k.events [ [] ↦ (none, k) | e ∷ es ↦ (some e, record k { events = es }) ]

-- One round of `WaitAndReadEvent`; `none`: it waits.
unfoldable pub wait_and_read_event : Keyboard → Machine → Option KeyEvent × Keyboard × Machine
unfolding wait
wait_and_read_event k m = elim k.events [
  | [] ↦ (none, record k { irq_signal = (wait k.irq_signal m).0 }, (wait k.irq_signal m).1)
  | e ∷ es ↦ (some e, record k { events = es }, m)
]

-- `PS2::Handle`, for the byte and the bit `auxData` of the controller's status.
unfoldable pub handle :
    Layout → Bool → Bool → ℕ → Mouse × Keyboard × Machine → Mouse × Keyboard × Machine
unfolding fifo_add baby_osv.Input.Mouse.fifo_add
handle l handle_data aux_data v (mouse, k, m) =
    if handle_data
    then (if aux_data
        then (
          (baby_osv.Input.Mouse.fifo_add v mouse m).0,
          k,
          (baby_osv.Input.Mouse.fifo_add v mouse m).1,
        )
        else (mouse, (fifo_add l v k m).0, (fifo_add l v k m).1))
    else (mouse, k, m)
