-- ===== src/Containers/Array/Insert.antt =====
-- `InsertAt`, `PushFront` and `PushBack` of an array, on the list of its elements.
use native.Mathlib.Decide.{dec_lt}
use baby_osv.Base.{
  ℕ, zero, suc, ◌+◌, ◌-◌, ◌*◌, ◌≤◌, ◌<◌, ◌≡◌, refl, ap, ◌∙◌, sym, subst, List, [], ◌∷◌, ◌++◌, Bool,
  true, false, ltb, leb, ◌==◌, ◌&&◌, if◌then◌else◌, arith, length, update, update_self, update_ne,
  u32_mod, add32, mul32,
}
use baby_osv.Base
use baby_osv.Containers.Array.{Array, resize, place, insert_at, shift_up}
use baby_osv.Containers.Array.Contents.{contents, window, window-ext, window-insert, shift_up_lem}

-- The invariant of the class, with room for one more doubling.
pub record IsValid {A : Type 0} (r : Array A) : Type 0 where
  pub in_capacity : r.size ≤ r.capacity
  pub bounded : r.capacity + r.capacity < u32_mod

module _ {A : Type 0} where
  place-contents :
      (index : ℕ) (arg : A) (r : Array A)
      → index ≤ r.size
      → r.size + 1 < u32_mod
      → contents (place index arg r) ≡ Base.insert_at index arg (contents r)
  place-contents index arg r le fits =
      ap (window spread 0) {y = suc r.size} (omega arith)
      ∙ window-insert r.elements spread arg 0 index r.size le
          (λ j l.
            update_ne lifted index (0 + j) arg (omega arith)
            ∙ shift_up_lem (r.size - index) r.size r.elements (0 + j) (omega arith)
            ∙ ground arith)
          (ap spread (omega arith) ∙ update_self lifted index arg)
          (λ j l m.
            update_ne lifted index (suc (0 + j)) arg (omega arith)
            ∙ shift_up_lem (r.size - index) r.size r.elements (suc (0 + j)) (omega arith)
            ∙ ground arith)
    where
      lifted : ℕ → A
      lifted = shift_up (r.size - index) r.size r.elements

      spread : ℕ → A
      spread = update lifted index arg

  resize-contents :
      (fresh : ℕ → A) (r : Array A) → r.size ≤ r.capacity → contents (resize fresh r) ≡ contents r
  unfolding resize
  resize-contents fresh r le = window-ext _ r.elements 0 0 r.size (λ j l. ground arith)

  clamp :
      (index : ℕ) (arg : A) (xs : List A)
      → length xs ≤ index
      → Base.insert_at (length xs) arg xs ≡ Base.insert_at index arg xs
  clamp zero arg [] le = refl
  clamp (suc index) arg [] le = refl
  clamp zero arg (x ∷ xs) le = absurd (omega arith)
  clamp (suc index) arg (x ∷ xs) le = ap (λ l. x ∷ l) (clamp index arg xs (omega arith))

  length-window : (d : ℕ → A) (a n : ℕ) → length (window d a n) ≡ n
  length-window d a zero = refl
  length-window d a (suc n) = ap suc (length-window d (suc a) n)

  -- The array that the element is put into: it has room, and the same elements.
  record Roomy (r s : Array A) : Type 0 where
    same_size : s.size ≡ r.size
    room : s.size + 1 ≤ s.capacity
    same : contents s ≡ contents r
    small : s.capacity < u32_mod

  made_room :
      (fresh : ℕ → A) (r : Array A)
      → IsValid r
      → Roomy r (if ltb r.capacity (add32 r.size 1) then resize fresh r else r)
  unfolding resize
  made_room fresh r v = elim (dec_lt r.capacity (r.size + 1)) [
    | yes full ↦
        let test : ltb r.capacity (add32 r.size 1) ≡ true =
          ground (arith, v.in_capacity, v.bounded) in
        rw test (record {
          same_size = refl;
          room = ground (arith, v.in_capacity, v.bounded);
          same = resize-contents fresh r v.in_capacity;
          small = ground (arith, v.in_capacity, v.bounded);
        })
    | no free ↦
        let test : ltb r.capacity (add32 r.size 1) ≡ false =
          ground (arith, v.in_capacity, v.bounded) in
        rw test (record {
          same_size = refl;
          room = omega arith;
          same = refl;
          small = omega (arith, v.bounded);
        })
  ]

  -- What `InsertAt` is meant to leave.
  pub record Inserted (index : ℕ) (arg : A) (r s : Array A) : Type 0 where
    pub elements : contents s ≡ Base.insert_at index arg (contents r)
    pub one_more : s.size ≡ r.size + 1
    pub in_capacity : s.size ≤ s.capacity

  place-Inserted :
      (index : ℕ) (arg : A) {r s : Array A}
      → index ≤ r.size
      → Roomy r s
      → Inserted index arg r (place index arg s)
  place-Inserted index arg {r} {s} le m = record {
    elements =
        place-contents index arg s (omega (arith, m.same_size)) (omega (arith, m.room, m.small))
        ∙ ap (Base.insert_at index arg) m.same;
    one_more = omega (arith, m.same_size, m.room, m.small);
    in_capacity = omega (arith, m.same_size, m.room, m.small);
  }

  -- If the capacity is below 2 ^ 31, `InsertAt` puts the element at the index, or
  -- behind all elements if the index is past the end; the elements from the index on move back by one
  -- and no other moves, also where the buffer is moved. There is one element more, within the capacity.
  pub insert_at_lem :
      (fresh : ℕ → A) (index : ℕ) (arg : A) (r : Array A)
      → IsValid r
      → Inserted index arg r (insert_at fresh index arg r)
  unfolding insert_at
  insert_at_lem fresh index arg r v = elim (dec_lt r.size index) [
    | yes past ↦
        let test : ltb r.size index ≡ true = ground arith in
        let last = place-Inserted r.size arg (omega arith) (made_room fresh r v) in
        let len = length-window r.elements 0 r.size in
        rw test (record {
          one_more = last.one_more;
          in_capacity = last.in_capacity;
          elements =
              last.elements
              ∙ ap (λ n. Base.insert_at n arg (contents r)) (sym len)
              ∙ clamp index arg (contents r) (omega (arith, len));
        })
    | no within ↦
        let test : ltb r.size index ≡ false = ground arith in
        rw test (place-Inserted index arg (omega arith) (made_room fresh r v))
  ]
