-- ===== src/Memory/Map/Sorting.antt =====
-- When `SortEntries` comes to an end, and what it leaves.
use native.Mathlib.Decide.{dec_le}
use baby_osv.Base.{
  ℕ, zero, suc, ◌+◌, ◌≤◌, ◌<◌, ◌≡◌, refl, inl, inr, Bool, true, false, none, List, [], ◌∷◌, leb,
  ◌==◌, arith, Bool-cases,
}
use baby_osv.Memory.Map.{Entry, pass, pass_all, sort_entries}

abbrev pub one_if : Bool → ℕ
one_if true = 1
one_if false = 0

-- How many entries have the base.
abbrev pub count : ℕ → List Entry → ℕ
count b [] = 0
count b (e ∷ es) = one_if (e.base == b) + count b es

count-pass : (b : ℕ) (x : Entry) (xs : List Entry) → count b (pass x xs).1 ≡ count b (x ∷ xs)
unfolding pass
count-pass b x [] = refl
count-pass b x (y ∷ ys) = elim (Bool-cases (leb y.base x.base)) [
  | inl e ↦ rw e (omega (arith, count-pass b x ys))
  | inr e ↦ rw e (omega (arith, count-pass b y ys))
]

-- A round without a change has found every base below the next.
unchanged :
    (b : ℕ) (x : Entry) (xs : List Entry)
    → (pass x xs).0 ≡ false
    → (count b (x ∷ xs) ≤ 1) × (b < x.base → count b (x ∷ xs) ≡ 0)
unfolding pass
unchanged b x [] h = (ground arith, λ l. ground arith)
unchanged b x (y ∷ ys) h = elim (dec_le y.base x.base) [
  | yes p ↦ absurd (ground (arith, h))
  | no q ↦
      let rest = unchanged b y ys (ground (arith, h)) in
      (ground (arith, rest.0, rest.1), λ l. ground (arith, rest.1))
]

pub count-pass_all : (b : ℕ) (es : List Entry) → count b (pass_all es).1 ≡ count b es
unfolding pass_all
count-pass_all b [] = refl
count-pass_all b (x ∷ xs) = count-pass b x xs

unchanged_all : (b : ℕ) (es : List Entry) → (pass_all es).0 ≡ false → count b es ≤ 1
unfolding pass_all
unchanged_all b [] h = omega arith
unchanged_all b (x ∷ xs) h = (unchanged b x xs h).0

-- If two entries have the same base, `SortEntries` does not come to an end: after any number of rounds
-- of its loop it goes on.
pub sort_entries-none :
    (rounds b : ℕ) (es : List Entry) → 2 ≤ count b es → sort_entries rounds es ≡ none
unfolding sort_entries
sort_entries-none zero b es two = refl
sort_entries-none (suc rounds) b es two = elim (Bool-cases (pass_all es).0) [
  | inl e ↦ rw e (sort_entries-none rounds b (pass_all es).1 (omega (arith, count-pass_all b es)))
  | inr e ↦ absurd (omega (arith, unchanged_all b es e))
]
