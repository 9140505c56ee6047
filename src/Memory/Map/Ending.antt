-- ===== src/Memory/Map/Ending.antt =====
-- `SortEntries` comes to an end where no two entries have one base.
use mathlib.Core.List.{Perm}
use mathlib.Core.List.Perm
use baby_osv.Base.{
  ℕ, zero, suc, ◌+◌, ◌≤◌, ◌<◌, ◌≡◌, refl, ap, inl, inr, Bool, true, false, ◌&&◌, some, List, [],
  ◌∷◌, ltb, leb, arith, Bool-cases,
}
use baby_osv.Memory.Map.{Entry, pass, pass_all, sort_entries}
use baby_osv.Memory.Map.Sorting.{one_if, count, count-pass_all}

-- How many entries have a smaller base.
abbrev smaller : ℕ → List Entry → ℕ
smaller b [] = 0
smaller b (e ∷ es) = one_if (ltb e.base b) + smaller b es

-- The pairs of entries that are not in order.
abbrev pub inversions : List Entry → ℕ
inversions [] = 0
inversions (e ∷ es) = smaller e.base es + inversions es

abbrev pub ascending_from : ℕ → List Entry → Bool
ascending_from b [] = true
ascending_from b (e ∷ es) = ltb b e.base && ascending_from e.base es

abbrev pub ascending : List Entry → Bool
ascending [] = true
ascending (e ∷ es) = ascending_from e.base es

smaller-pass : (b : ℕ) (x : Entry) (xs : List Entry) → smaller b (pass x xs).1 ≡ smaller b (x ∷ xs)
unfolding pass
smaller-pass b x [] = refl
smaller-pass b x (y ∷ ys) = elim (Bool-cases (leb y.base x.base)) [
  | inl e ↦ rw e (omega (arith, smaller-pass b x ys))
  | inr e ↦ rw e (omega (arith, smaller-pass b y ys))
]

below :
    (x y : Entry) (ys : List Entry)
    → leb y.base x.base ≡ true
    → count x.base (x ∷ y ∷ ys) ≤ 1
    → ltb y.base x.base ≡ true
below x y ys e d = ground (arith, e, d)

-- A round takes away at least one pair if it swaps.
inversions-pass :
    (x : Entry) (xs : List Entry)
    → ((b : ℕ) → count b (x ∷ xs) ≤ 1)
    → inversions (pass x xs).1 + one_if (pass x xs).0 ≤ inversions (x ∷ xs)
unfolding pass
inversions-pass x [] d = omega arith
inversions-pass x (y ∷ ys) d = elim (Bool-cases (leb y.base x.base)) [
  | inl e ↦
      let l : ltb y.base x.base ≡ true = below x y ys e (d x.base) in
      let z : one_if (ltb x.base y.base) ≡ 0 = ground (arith, e) in
      let rest = inversions-pass x ys (λ b. omega (arith, d b)) in
      rw (e, l) (omega (arith, rest, z, smaller-pass y.base x ys))
  | inr e ↦
      let z : one_if (ltb y.base x.base) ≡ 0 = ground (arith, e) in
      let rest = inversions-pass y ys (λ b. omega (arith, d b)) in
      rw e (omega (arith, rest, z, smaller-pass x.base y ys))
]

perm-pass : (x : Entry) (xs : List Entry) → Perm (pass x xs).1 (x ∷ xs)
unfolding pass
perm-pass x [] = Perm.rfl
perm-pass x (y ∷ ys) = elim (Bool-cases (leb y.base x.base)) [
  | inl e ↦ rw e (Perm.trans (Perm.cons y (perm-pass x ys)) (Perm.swap x y ys))
  | inr e ↦ rw e (Perm.cons x (perm-pass y ys))
]

ascending-pass :
    (x : Entry) (xs : List Entry)
    → (pass x xs).0 ≡ false
    → ((pass x xs).1 ≡ x ∷ xs) × (ascending (x ∷ xs) ≡ true)
unfolding pass
ascending-pass x [] h = (refl, refl)
ascending-pass x (y ∷ ys) h = elim (Bool-cases (leb y.base x.base)) [
  | inl e ↦ absurd (ground (arith, h, e))
  | inr e ↦
      let k : (pass y ys).0 ≡ false = ground (arith, h, e) in
      let l : ltb x.base y.base ≡ true = ground (arith, e) in
      let rest = ascending-pass y ys k in (rw e (ap (λ zs. x ∷ zs) rest.0), rw l rest.1)
]

-- If no two entries have the same base, `SortEntries` comes to an end, after at most one round more than the
-- entries have pairs that are not in order; it leaves the same entries, with ascending bases.
pub sort_entries_lem :
    (rounds : ℕ) (es : List Entry)
    → ((b : ℕ) → count b es ≤ 1)
    → inversions es < rounds
    → (sorted : List Entry) × (sort_entries rounds es ≡ some sorted)
      × Perm sorted es
      × (ascending sorted ≡ true)
unfolding sort_entries pass_all
sort_entries_lem zero es d h = absurd (omega (arith, h))
sort_entries_lem (suc rounds) [] d h = ([], refl, Perm.rfl, refl)
sort_entries_lem (suc rounds) (x ∷ xs) d h = elim (Bool-cases (pass x xs).0) [
  | inl e ↦
      let fewer : inversions (pass x xs).1 + 1 ≤ inversions (x ∷ xs) =
        ground (arith, e, inversions-pass x xs d) in
      let (sorted, eq, perm, up) =
        sort_entries_lem rounds (pass x xs).1 (λ b. omega (arith, d b, count-pass_all b (x ∷ xs)))
          (omega (arith, fewer, h)) in
      (sorted, rw e eq, Perm.trans perm (perm-pass x xs), up)
  | inr e ↦ let (same, up) = ascending-pass x xs e in (x ∷ xs, rw (e, same) refl, Perm.rfl, up)
]
