-- ===== src/Input/Mouse/Packets.antt =====
-- The packets of a stream.
use baby_osv.Base.{
  ℕ, Bool, true, false, not, ◌+◌, ◌-◌, ◌^◌, ◌==◌, ◌&&◌, ◌||◌, if◌then◌else◌, ◌≤◌, ◌≡◌, refl, ap,
  ◌∙◌, sym, List, [], ◌∷◌, ◌++◌, append-nil, append_assoc, length, length-append, arith,
}
use baby_osv.Threads.Scheduler.{Machine, raise}
use baby_osv.Input.Mouse.{
  Mouse, Event, movement, button_click, button_release, Button, left, middle, right, button_events,
  movement_events, extend_sign, Buttons, bit, decode, buttons_of, consume, fifo_add, receive,
}

-- A displacement of nine bits: `low`, and 256 less if it is negative.
pub record Displacement : Type 0 where
  pub is_negative : Bool
  pub low : ℕ

-- What the mouse says at once: which buttons are down, and how far it moved.
pub record Packet : Type 0 where
  pub left_is_down : Bool
  pub right_is_down : Bool
  pub middle_is_down : Bool
  pub x : Displacement
  pub y : Displacement

abbrev weight : Bool → ℕ → ℕ
weight true n = n
weight false n = 0

-- The first byte of a packet: bit 3 is set in each.
abbrev pub first_byte : Packet → ℕ
first_byte p =
    weight p.left_is_down 1
    + weight p.right_is_down 2
    + weight p.middle_is_down 4
    + 8
    + weight p.x.is_negative 16
    + weight p.y.is_negative 32

abbrev pub bytes_of : List Packet → List ℕ
bytes_of [] = []
bytes_of (p ∷ ps) = first_byte p ∷ p.x.low ∷ p.y.low ∷ bytes_of ps

-- A displacement as a 32-bit word in two's complement.
abbrev pub word_of : Displacement → ℕ
word_of d = elim d.is_negative [ true ↦ 2 ^ 32 - 256 + d.low | false ↦ d.low ]

abbrev pub moves : ℕ → ℕ → List Event
moves x y = if (x == 0) && (y == 0) then [] else movement x y ∷ []

-- What a button does that was down or not, and is now.
abbrev pub changes : Button → Bool → Bool → List Event
changes b false true = button_click b ∷ []
changes b true false = button_release b ∷ []
changes b false false = []
changes b true true = []

abbrev pub events_at : Buttons → Packet → List Event
events_at before p =
    changes left before.left_down p.left_is_down
    ++ (changes middle before.middle_down p.middle_is_down
        ++ (changes right before.right_down p.right_is_down ++ moves (word_of p.x) (word_of p.y)))

abbrev pub held : Packet → Buttons
held p = record {
  left_down = p.left_is_down;
  middle_down = p.middle_is_down;
  right_down = p.right_is_down;
}

-- The events of a series of packets, and the buttons behind them.
abbrev pub events_of : Buttons → List Packet → List Event
events_of b [] = []
events_of b (p ∷ ps) = events_at b p ++ events_of (held p) ps

abbrev pub buttons_after : Buttons → List Packet → Buttons
buttons_after b [] = b
buttons_after b (p ∷ ps) = buttons_after (held p) ps

-- The bits of a first byte.
bit_0 : (p : Packet) → bit 0 (first_byte p) ≡ p.left_is_down
bit_0 p = ground arith

bit_1 : (p : Packet) → bit 1 (first_byte p) ≡ p.right_is_down
bit_1 p = ground arith

bit_2 : (p : Packet) → bit 2 (first_byte p) ≡ p.middle_is_down
bit_2 p = ground arith

bit_3 : (p : Packet) → bit 3 (first_byte p) ≡ true
bit_3 p = ground arith

bit_4 : (p : Packet) → bit 4 (first_byte p) ≡ p.x.is_negative
bit_4 p = ground arith

bit_5 : (p : Packet) → bit 5 (first_byte p) ≡ p.y.is_negative
bit_5 p = ground arith

button_events-changes :
    (b : Button) (before now : Bool) → button_events b now before ≡ changes b before now
button_events-changes b true true = refl
button_events-changes b true false = refl
button_events-changes b false true = refl
button_events-changes b false false = refl

movement_events-moves : (x y : ℕ) → movement_events x y ≡ moves x y
movement_events-moves x y = one_is_not (x == 0) (y == 0)
  where
    one_is_not :
        (a b : Bool)
        → (if not a || not b then movement x y ∷ [] else [])
          ≡ (if a && b then [] else movement x y ∷ [])
    one_is_not true true = refl
    one_is_not true false = refl
    one_is_not false b = refl

extend_sign-word_of : (d : Displacement) → extend_sign d.is_negative d.low ≡ word_of d
extend_sign-word_of d = ground arith

buttons_of-held : (p : Packet) → buttons_of (first_byte p) ≡ held p
buttons_of-held p = rw (bit_0 p, bit_1 p, bit_2 p) refl

same_parts :
    {a a' b b' c c' d d' : List Event}
    → a ≡ a'
    → b ≡ b'
    → c ≡ c'
    → d ≡ d'
    → a ++ (b ++ (c ++ d)) ≡ a' ++ (b' ++ (c' ++ d'))
same_parts p q r s = cc

decode-events_at :
    (before : Buttons) (p : Packet)
    → decode before (first_byte p) p.x.low p.y.low ≡ events_at before p
unfolding decode
decode-events_at before p =
    let first = first_byte p in
    same_parts
      (ap (λ b. button_events left b before.left_down) (bit_0 p)
        ∙ button_events-changes left before.left_down p.left_is_down)
      (ap (λ b. button_events middle b before.middle_down) (bit_2 p)
        ∙ button_events-changes middle before.middle_down p.middle_is_down)
      (ap (λ b. button_events right b before.right_down) (bit_1 p)
        ∙ button_events-changes right before.right_down p.right_is_down)
      (ap (λ x. movement_events x (extend_sign (bit 5 first) p.y.low))
          (ap (λ b. extend_sign b p.x.low) (bit_4 p) ∙ extend_sign-word_of p.x)
        ∙ (ap (λ y. movement_events (word_of p.x) y)
              (ap (λ b. extend_sign b p.y.low) (bit_5 p) ∙ extend_sign-word_of p.y)
            ∙ movement_events-moves (word_of p.x) (word_of p.y)))

-- What a packet leaves.
abbrev behind : Packet → Mouse → Machine → Mouse × Machine
behind p mouse m = (
  record {
    data_buffer = [];
    events = mouse.events ++ events_at mouse.buttons_states p;
    buttons_states = held p;
    irq_signal = (raise mouse.irq_signal m).0;
  },
  (raise mouse.irq_signal m).1,
)

consume_packet :
    (p : Packet) (mouse : Mouse) (m : Machine)
    → consume (first_byte p ∷ p.x.low ∷ p.y.low ∷ []) mouse m ≡ behind p mouse m
unfolding consume
consume_packet p mouse m =
    rw (consume, bit_3 p, decode-events_at mouse.buttons_states p, buttons_of-held p) refl

-- With an empty buffer the bytes of a packet are decoded at the third.
receive_packet :
    (p : Packet) (rest : List ℕ) (mouse : Mouse) (m : Machine)
    → mouse.data_buffer ≡ []
    → receive (first_byte p ∷ p.x.low ∷ p.y.low ∷ rest) (mouse, m) ≡ receive rest (behind p mouse m)
unfolding fifo_add consume
receive_packet p rest mouse m empty =
    ap
      (λ b. receive (first_byte p ∷ p.x.low ∷ p.y.low ∷ rest) (record mouse { data_buffer = b }, m))
      empty
    ∙ ap (receive rest)
        (consume_packet p (record mouse { data_buffer = first_byte p ∷ p.x.low ∷ [] }) m)

-- The bytes of any series of packets (bit 3 of the first one set, the buttons left, right and middle in its
-- bits 0 to 2, the signs in bits 4 and 5), received with an empty buffer, give for each packet, in their
-- order, a click of each button that is down now and was not, a release of each that was and is not, and a
-- movement by its displacements, as 32-bit words in two's complement, unless both are 0. They leave an empty
-- buffer and the buttons of the last packet.
pub receive-bytes_of :
    (ps : List Packet) (mouse : Mouse) (m : Machine)
    → mouse.data_buffer ≡ []
    → let r = (receive (bytes_of ps) (mouse, m)).0 in
      (r.events ≡ mouse.events ++ events_of mouse.buttons_states ps)
      × (r.buttons_states ≡ buttons_after mouse.buttons_states ps)
      × (r.data_buffer ≡ [])
receive-bytes_of [] mouse m empty = (sym (append-nil mouse.events), refl, empty)
receive-bytes_of (p ∷ ps) mouse m empty =
    let next = behind p mouse m in
    let step = receive_packet p (bytes_of ps) mouse m empty in
    let (events, buttons, buffer) = receive-bytes_of ps next.0 next.1 refl in
    (
      ap (λ r. r.0.events) step
          ∙ events
          ∙ append_assoc mouse.events (events_at mouse.buttons_states p) (events_of (held p) ps),
      ap (λ r. r.0.buttons_states) step ∙ buttons,
      ap (λ r. r.0.data_buffer) step ∙ buffer,
    )

consume-short :
    (bytes : List ℕ) (mouse : Mouse) (m : Machine)
    → length bytes ≤ 3
    → length (consume bytes mouse m).0.data_buffer ≤ 2
unfolding consume
consume-short [] mouse m short = omega arith
consume-short (a ∷ []) mouse m short = omega arith
consume-short (a ∷ b ∷ []) mouse m short = omega arith
consume-short (a ∷ b ∷ c ∷ rest) mouse m short = ground (arith, short)

-- Whatever bytes arrive, the buffer never holds more than two of them between the calls.
pub receive-short :
    (bytes : List ℕ) (mouse : Mouse) (m : Machine)
    → length mouse.data_buffer ≤ 2
    → length (receive bytes (mouse, m)).0.data_buffer ≤ 2
unfolding fifo_add
receive-short [] mouse m short = short
receive-short (v ∷ bytes) mouse m short =
    let next = fifo_add v mouse m in
    receive-short bytes next.0 next.1 (
      consume-short (mouse.data_buffer ++ (v ∷ [])) mouse m
        (omega (arith, short, length-append mouse.data_buffer (v ∷ []))))
