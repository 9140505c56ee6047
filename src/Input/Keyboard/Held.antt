-- ===== src/Input/Keyboard/Held.antt =====
-- Which keys are held behind a series of scan codes, and what events there are.
use baby_osv.Base.{
  ℕ, ◌%◌, ◌≡◌, refl, ap, ◌∙◌, sym, Bool, true, false, not, ◌&&◌, Option, none, some, List, [], ◌∷◌,
  ◌++◌, append-nil, append_assoc, map, ltb, ◌==◌, if◌then◌else◌, update, arith, Bool-cases, inl,
  inr,
}
use mathlib.Core.List.{map-append}
use baby_osv.Threads.Scheduler.{Machine}
use baby_osv.Input.Keyboard.{
  Layout, Keyboard, KeyEvent, is_key_pressed, add_event, press_or_release, fifo_add, event_of,
}

-- The codes, one after the other.
abbrev pub receive : Layout → List ℕ → Keyboard × Machine → Keyboard × Machine
receive l [] s = s
receive l (c ∷ cs) (k, m) = receive l cs (fifo_add l c k m)

-- The code is about a key, and about this one.
abbrev pub is_code : Layout → ℕ → Bool
is_code l c = not (c == 0xe0) && not (l.key_of (c % 128) == 0)

abbrev pub is_code_of : Layout → ℕ → ℕ → Bool
is_code_of l key c = is_code l c && (l.key_of (c % 128) == key)

abbrev pub or_last : Option Bool → Bool → Bool → Option Bool
or_last (some b) about pressed = some b
or_last none about pressed = if about then some pressed else none

-- What the last code about the key says: pressed or released.
abbrev pub last_of : Layout → ℕ → List ℕ → Option Bool
last_of l key [] = none
last_of l key (c ∷ cs) = or_last (last_of l key cs) (is_code_of l key c) (ltb c 128)

abbrev pub get_or_else : Bool → Option Bool → Bool
get_or_else b none = b
get_or_else b (some x) = x

-- The key and the type of each code about a key.
abbrev pub strokes : Layout → List ℕ → List (ℕ × Bool)
strokes l [] = []
strokes l (c ∷ cs) =
    let rest = strokes l cs in if is_code l c then (l.key_of (c % 128), ltb c 128) ∷ rest else rest

abbrev pub stroke_of : KeyEvent → ℕ × Bool
stroke_of e = (e.key, e.pressed)

fifo_add-pressed :
    (l : Layout) (c key : ℕ) (k : Keyboard) (m : Machine)
    → is_key_pressed key (fifo_add l c k m).0
      ≡ (if is_code_of l key c then ltb c 128 else is_key_pressed key k)
unfolding fifo_add press_or_release add_event update
fifo_add-pressed l c key k m = ground arith

fifo_add-events :
    (l : Layout) (c : ℕ) (k : Keyboard) (m : Machine)
    → map stroke_of (fifo_add l c k m).0.events ≡ map stroke_of k.events ++ strokes l (c ∷ [])
unfolding fifo_add press_or_release add_event
fifo_add-events l c k m = elim (Bool-cases (c == 0xe0)) [
  | inl e ↦ rw e (sym (append-nil (map stroke_of k.events)))
  | inr e ↦ elim (Bool-cases (l.key_of (c % 128) == 0)) [
    | inl n ↦ rw (e, n) (sym (append-nil (map stroke_of k.events)))
    | inr n ↦
        let pressed = ltb c 128 in
        let added =
          event_of l pressed (l.key_of (c % 128))
            (update k.keys_map (l.key_of (c % 128)) pressed) in
        rw (e, n) (map-append stroke_of k.events (added ∷ []))
  ]
]

receive-pressed :
    (l : Layout) (cs : List ℕ) (key : ℕ) (k : Keyboard) (m : Machine)
    → is_key_pressed key (receive l cs (k, m)).0
      ≡ get_or_else (is_key_pressed key k) (last_of l key cs)
receive-pressed l [] key k m = refl
receive-pressed l (c ∷ cs) key k m =
    let next = fifo_add l c k m in
    receive-pressed l cs key next.0 next.1
    ∙ ap (λ b. get_or_else b (last_of l key cs)) (fifo_add-pressed l c key k m)
    ∙ decided (last_of l key cs) (is_code_of l key c) (ltb c 128) (is_key_pressed key k)
  where
    decided :
        (o : Option Bool) (about pressed before : Bool)
        → get_or_else (if about then pressed else before) o
          ≡ get_or_else before (or_last o about pressed)
    decided (some b) about pressed before = refl
    decided none true pressed before = refl
    decided none false pressed before = refl

receive-strokes :
    (l : Layout) (cs : List ℕ) (k : Keyboard) (m : Machine)
    → map stroke_of (receive l cs (k, m)).0.events ≡ map stroke_of k.events ++ strokes l cs
receive-strokes l [] k m = sym (append-nil (map stroke_of k.events))
receive-strokes l (c ∷ cs) k m =
    let next = fifo_add l c k m in
    receive-strokes l cs next.0 next.1
    ∙ ap (λ s. s ++ strokes l cs) (fifo_add-events l c k m)
    ∙ append_assoc (map stroke_of k.events) (strokes l (c ∷ [])) (strokes l cs)
    ∙ ap (λ s. map stroke_of k.events ++ s) (one_more (is_code l c))
  where
    one_more :
        (about : Bool)
        → (if about then (l.key_of (c % 128), ltb c 128) ∷ [] else []) ++ strokes l cs
          ≡ (if about then (l.key_of (c % 128), ltb c 128) ∷ strokes l cs else strokes l cs)
    one_more true = refl
    one_more false = refl

-- After any series of scan codes a key is held exactly if the last code about it says pressed, or, if there
-- is none, if it was held before; and the events, each with its key and whether it is a press, are those
-- that were there and then one for each code about a key, in order.
pub receive_lem :
    (l : Layout) (cs : List ℕ) (k : Keyboard) (m : Machine)
    → ((key : ℕ)
        → is_key_pressed key (receive l cs (k, m)).0
          ≡ get_or_else (is_key_pressed key k) (last_of l key cs))
      × (map stroke_of (receive l cs (k, m)).0.events ≡ map stroke_of k.events ++ strokes l cs)
receive_lem l cs k m = (λ key. receive-pressed l cs key k m, receive-strokes l cs k m)
