-- ===== src/Containers/Array/Remove.antt =====
-- `RemoveAt` and `Remove` of an array, on the list of its elements.
use native.Mathlib.Decide.{dec_lt}
use baby_osv.Base.{
  lt→ltb, ℕ, zero, suc, ◌+◌, ◌-◌, ◌≤◌, ◌<◌, ◌≡◌, refl, ap, ◌∙◌, sym, subst, List, [], ◌∷◌, ◌++◌,
  Bool, true, false, not, ltb, leb, ◌==◌, ◌&&◌, if◌then◌else◌, arith, length, take, u32_mod, sub32,
  Bool-cases, ◌⊎◌, inl, inr,
}
use baby_osv.Base
use baby_osv.Base.Outcome.{Outcome, ok}
use baby_osv.Containers.Array.{Array, remove_at, shift_down, remove_from, remove}
use baby_osv.Containers.Array.Contents.{contents, window, window-remove, shift_down_lem}
use baby_osv.Containers.Array.Insert.{IsValid}

module _ {A : Type 0} where
  -- What `RemoveAt` is meant to leave.
  pub record Removed (index : ℕ) (r s : Array A) : Type 0 where
    pub elements : contents s ≡ Base.remove_at index (contents r)
    pub one_less : s.size + 1 ≡ r.size
    pub valid : IsValid s

  shrunk : (ℕ → A) → Array A → Array A
  shrunk moved r = record { elements = moved; size = r.size - 1; capacity = r.capacity }

  remove_at-ok :
      (index : ℕ) (r : Array A) (moved : ℕ → A)
      → ltb r.size index ≡ false
      → sub32 r.size 1 ≡ r.size - 1
      → shift_down r.capacity (r.size - 1 - index) index r.elements ≡ ok moved
      → remove_at index r ≡ ok (shrunk moved r)
  unfolding remove_at shrunk
  remove_at-ok index r moved test less done = rw (remove_at, test, less, done) refl

  -- `RemoveAt` for the index of an element succeeds: the elements behind it move to the front by one and
  -- no other moves; there is one element less.
  pub remove_at_lem :
      (index : ℕ) (r : Array A)
      → IsValid r
      → index < r.size
      → (s : Array A) × (remove_at index r ≡ ok s) × Removed index r s
  unfolding shrunk
  remove_at_lem index r v inside =
      let (moved, done, cells) =
        shift_down_lem r.capacity (r.size - 1 - index) index r.elements
          (omega (arith, v.in_capacity)) in
      (
        shrunk moved r,
        remove_at-ok index r moved (ground arith) (omega (arith, v.in_capacity, v.bounded)) done,
        record {
          elements =
              window-remove r.elements moved 0 index (r.size - 1) (omega arith)
                (λ j l. cells (0 + j) ∙ ground arith) (λ j l m. cells (0 + j) ∙ ground arith)
              ∙ ap (λ n. Base.remove_at index (window r.elements 0 n)) {x = suc (r.size - 1)}
                  (omega arith);
          one_less = omega arith;
          valid = record { in_capacity = omega (arith, v.in_capacity); bounded = v.bounded };
        },
      )

  take-window : (d : ℕ → A) (a n m : ℕ) → n ≤ m → window d a n ≡ take n (window d a m)
  take-window d a zero m le = refl
  take-window d a (suc n) zero le = absurd (omega arith)
  take-window d a (suc n) (suc m) le = ap (λ l. d a ∷ l) (take-window d (suc a) n m (omega arith))

  no_rounds : (c n a : ℕ) (d : ℕ → A) → n ≡ 0 → shift_down c n a d ≡ ok d
  unfolding shift_down
  no_rounds c n a d e = rw e refl

  -- `RemoveAt` with the index just behind the last element, which is the index of none, removes the last
  -- element.
  pub remove_at_size :
      (r : Array A)
      → IsValid r
      → 0 < r.size
      → (s : Array A) × (remove_at r.size r ≡ ok s)
        × (contents s ≡ take (r.size - 1) (contents r))
        × (s.size + 1 ≡ r.size)
  unfolding shrunk
  remove_at_size r v some_left = (
    shrunk r.elements r,
    remove_at-ok r.size r r.elements (ground arith) (omega (arith, v.in_capacity, v.bounded))
        (no_rounds r.capacity (r.size - 1 - r.size) r.size r.elements (omega arith)),
    take-window r.elements 0 (r.size - 1) r.size (omega arith),
    omega arith,
  )

  module _ (equal : A → A → Bool) (arg : A) where
    -- The list without the elements that `==` finds equal to the argument.
    abbrev pub without : List A → List A
    without [] = []
    without (x ∷ xs) = let rest = without xs in if equal x arg then rest else x ∷ rest

    -- The first `n` elements stay, and the others are filtered.
    abbrev pub kept_up_to : ℕ → List A → List A
    kept_up_to zero xs = without xs
    kept_up_to (suc n) [] = []
    kept_up_to (suc n) (x ∷ xs) = x ∷ kept_up_to n xs

    drop_one :
        (d : ℕ → A) (b n i : ℕ)
        → i < n
        → equal (d (b + i)) arg ≡ true
        → kept_up_to i (Base.remove_at i (window d b n)) ≡ kept_up_to i (window d b n)
    drop_one d b zero i l e = absurd (omega arith)
    drop_one d b (suc n) zero l e =
        let here : equal (d b) arg ≡ true = ap (λ j. equal (d j) arg) (omega arith) ∙ e in
        rw here refl
    drop_one d b (suc n) (suc i) l e =
        ap (λ l. d b ∷ l)
          (drop_one d (suc b) n i (omega arith) (ap (λ j. equal (d j) arg) (omega arith) ∙ e))

    keep_one :
        (d : ℕ → A) (b n i : ℕ)
        → i < n
        → equal (d (b + i)) arg ≡ false
        → kept_up_to (suc i) (window d b n) ≡ kept_up_to i (window d b n)
    keep_one d b zero i l e = absurd (omega arith)
    keep_one d b (suc n) zero l e =
        let here : equal (d b) arg ≡ false = ap (λ j. equal (d j) arg) (omega arith) ∙ e in
        rw here refl
    keep_one d b (suc n) (suc i) l e =
        ap (λ l. d b ∷ l)
          (keep_one d (suc b) n i (omega arith) (ap (λ j. equal (d j) arg) (omega arith) ∙ e))

    kept_all : (d : ℕ → A) (b n i : ℕ) → n ≤ i → window d b n ≡ kept_up_to i (window d b n)
    kept_all d b zero zero le = refl
    kept_all d b zero (suc i) le = refl
    kept_all d b (suc n) zero le = absurd (omega arith)
    kept_all d b (suc n) (suc i) le = ap (λ l. d b ∷ l) (kept_all d (suc b) n i (omega arith))

    step_removes :
        (fuel a : ℕ) (r : Array A) {s : Array A}
        → ltb a r.size ≡ true
        → equal (r.elements a) arg ≡ true
        → remove_at a r ≡ ok s
        → remove_from equal (suc fuel) a arg r ≡ remove_from equal fuel a arg s
    unfolding remove_from
    step_removes fuel a r inside hit done = rw (remove_from, inside, hit, done) refl

    step_passes :
        (fuel a : ℕ) (r : Array A)
        → (ltb a r.size && equal (r.elements a) arg) ≡ false
        → remove_from equal (suc fuel) a arg r ≡ remove_from equal fuel (a + 1) arg r
    unfolding remove_from
    step_passes fuel a r miss = rw (remove_from, miss) refl

    -- What `Remove` is meant to leave, when it has come to the index `a`.
    abbrev Filtered : ℕ → Outcome (Array A) → Array A → Type 0
    Filtered a out r =
        (s : Array A) × (out ≡ ok s) × (contents s ≡ kept_up_to a (contents r)) × IsValid s

    remove_from_lem :
        (fuel a : ℕ) (r : Array A)
        → IsValid r
        → r.size ≤ fuel + a
        → Filtered a (remove_from equal fuel a arg r) r
    unfolding remove_from
    remove_from_lem zero a r v enough = (r, refl, kept_all r.elements 0 r.size a (omega arith), v)
    remove_from_lem (suc fuel) a r v enough = elim (dec_lt a r.size) [
      | yes inside ↦ elim (Bool-cases (equal (r.elements a) arg)) [
        | inl hit ↦
            let (s, done, removed) = remove_at_lem a r v inside in
            let (last, rest, filtered, valid) =
              remove_from_lem fuel a s removed.valid (omega (arith, removed.one_less)) in
            (
              last,
              step_removes fuel a r (lt→ltb a r.size inside) hit done ∙ rest,
              filtered
                  ∙ ap (kept_up_to a) removed.elements
                  ∙ drop_one r.elements 0 r.size a inside
                      (ap (λ j. equal (r.elements j) arg) (omega arith) ∙ hit),
              valid,
            )
        | inr other ↦
            let (last, rest, filtered, valid) = remove_from_lem fuel (a + 1) r v (omega arith) in
            (
              last,
              step_passes fuel a r (ground (arith, other)) ∙ rest,
              filtered
                  ∙ ap (λ n. kept_up_to n (contents r)) {y = suc a} (omega arith)
                  ∙ keep_one r.elements 0 r.size a inside
                      (ap (λ j. equal (r.elements j) arg) (omega arith) ∙ other),
              valid,
            )
      ]
      | no outside ↦
          let (last, rest, filtered, valid) = remove_from_lem fuel (a + 1) r v (omega arith) in
          (
            last,
            step_passes fuel a r (ground arith) ∙ rest,
            filtered
                ∙ sym (kept_all r.elements 0 r.size (a + 1) (omega arith))
                ∙ kept_all r.elements 0 r.size a (omega arith),
            valid,
          )
    ]

    -- `Remove` succeeds and leaves the elements that are not equal to the argument, in their order; as
    -- many rounds of its loop are enough as there are elements.
    pub remove_lem :
        (r : Array A)
        → IsValid r
        → (s : Array A) × (remove equal arg r ≡ ok s)
          × (contents s ≡ without (contents r))
          × IsValid s
    unfolding remove
    remove_lem r v = remove_from_lem r.size 0 r v (omega arith)
