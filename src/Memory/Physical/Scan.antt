-- ===== src/Memory/Physical/Scan.antt =====
-- The search of `Physical::Alloc`: what it finds, and that it finds what there is.
use native.Mathlib.Decide.{dec_lt}
use mathlib.Core.Bool.{false≢true}
use baby_osv.Base.{
  ℕ, suc, ◌+◌, ◌-◌, ◌≤◌, ◌<◌, ◌≡◌, ap, ◌∙◌, sym, Bool, true, false, List, [], ◌∷◌, none, some,
  arith, length,
}
use baby_osv.Memory.Physical.{scan}
use baby_osv.Memory.Physical.Bits.{is_free}

-- All pages from `lo` up to and including `hi` are free.
abbrev pub AllFree : List Bool → ℕ → ℕ → Type 0
AllFree bits lo hi = (j : ℕ) → lo ≤ j → j ≤ hi → is_free bits j ≡ true

-- The bits from `index` on, read at their distance from `index`.
abbrev pub At : List Bool → ℕ → (ℕ → Bool) → Type 0
At rest index f = (j : ℕ) → f (index + j) ≡ is_free rest j

-- What the search returns: a run of free pages which ends at `index`, of the length asked for.
pub record Found (f : ℕ → Bool) (pages lo hi : ℕ) : Type 0 where
  pub free : (j : ℕ) → lo ≤ j → j ≤ hi → f j ≡ true
  pub ordered : lo ≤ hi
  pub enough : pages ≤ hi + 1 - lo
  pub tight : 0 < pages → hi + 1 - lo ≤ pages

At-next :
    (b : Bool) (bs : List Bool) (index : ℕ) (f : ℕ → Bool)
    → At (b ∷ bs) index f
    → At bs (index + 1) f
At-next b bs index f at j = ap f {y = index + suc j} (omega arith) ∙ at (suc j)

At-first :
    (b : Bool) (bs : List Bool) (index : ℕ) (f : ℕ → Bool) → At (b ∷ bs) index f → f index ≡ b
At-first b bs index f at = ap f {y = index + 0} (omega arith) ∙ at 0

pub scan-Found :
    (pages : ℕ) (rest : List Bool) (index last : ℕ) (f : ℕ → Bool) {lo hi : ℕ}
    → At rest index f
    → last ≤ index
    → ((j : ℕ) → last ≤ j → j < index → f j ≡ true)
    → (0 < pages → index - last < pages)
    → scan pages rest index last ≡ some (lo, hi)
    → Found f pages lo hi
unfolding scan
scan-Found pages [] index last f at le free short e = cc
scan-Found pages (false ∷ bs) index last f at le free short e =
    scan-Found pages bs (index + 1) (index + 1) f (At-next false bs index f at) (omega arith)
      (λ j p q. absurd (omega arith)) (λ p. omega arith) e
scan-Found pages (true ∷ bs) index last f {lo} {hi} at le free short e =
    elim (dec_lt (index - last + 1) pages) [
      | yes p ↦
          scan-Found pages bs (index + 1) last f (At-next true bs index f at) (omega arith)
            (λ j q r. extended j q (omega arith)) (λ _. omega arith) (ground arith)
      | no p ↦
          let hit : (last ≡ lo) × (index ≡ hi) = ground arith in
          record {
            free = λ j q r. extended j (omega (arith, hit)) (omega (arith, hit));
            ordered = omega (arith, hit);
            enough = omega (arith, hit);
            tight = λ q. omega (arith, hit, short q);
          }
    ]
  where
    extended : (j : ℕ) → last ≤ j → j ≤ index → f j ≡ true
    extended j p q = elim (dec_lt j index) [
      | yes h ↦ free j p h
      | no h ↦ ap f {y = index} (omega arith) ∙ At-first true bs index f at
    ]

-- `pages` pages from `from` on are free, and lie in the bitmap.
abbrev pub Run : (ℕ → Bool) → ℕ → ℕ → ℕ → Type 0
Run f size pages from = (from + pages ≤ size) × ((j : ℕ) → from ≤ j → j < from + pages → f j ≡ true)

-- A free run ends where the search sees a reserved page, so it starts behind it.
skip :
    (pages index last : ℕ) (f : ℕ → Bool) (from size : ℕ)
    → f index ≡ false
    → last ≤ from
    → index - last < pages
    → Run f size pages from
    → index + 1 ≤ from
skip pages index last f from size e le short run = elim (dec_lt index from) [
  | yes p ↦ omega arith
  | no p ↦ absurd (false≢true (sym e ∙ run.1 index (omega arith) (omega arith)))
]

-- No free run starts before the one that is found.
pub scan-first :
    (pages : ℕ) (rest : List Bool) (index last : ℕ) (f : ℕ → Bool) {lo hi : ℕ} (from : ℕ)
    → At rest index f
    → last ≤ index
    → index - last < pages
    → scan pages rest index last ≡ some (lo, hi)
    → last ≤ from
    → Run f (index + length rest) pages from
    → lo ≤ from
unfolding scan
scan-first pages [] index last f from at le short e q run = cc
scan-first pages (false ∷ bs) index last f from at le short e q run =
    scan-first pages bs (index + 1) (index + 1) f from (At-next false bs index f at) (omega arith)
      (omega arith) e (skip pages index last f from _ (At-first false bs index f at) q short run)
      (omega (arith, run.0), run.1)
scan-first pages (true ∷ bs) index last f {lo} {hi} from at le short e q run =
    elim (dec_lt (index - last + 1) pages) [
      | yes p ↦
          scan-first pages bs (index + 1) last f {lo = lo} {hi = hi} from
            (At-next true bs index f at) (omega arith) (omega arith) (ground arith) q
            (omega (arith, run.0), run.1)
      | no p ↦ let hit : last ≡ lo = ground arith in omega arith
    ]

-- The search fails only where there is no free run.
pub scan-none :
    (pages : ℕ) (rest : List Bool) (index last : ℕ) (f : ℕ → Bool) (from : ℕ)
    → At rest index f
    → last ≤ index
    → index - last < pages
    → scan pages rest index last ≡ none
    → last ≤ from
    → ¬ Run f (index + length rest) pages from
unfolding scan
scan-none pages [] index last f from at le short e q run = omega (arith, run.0)
scan-none pages (false ∷ bs) index last f from at le short e q run =
    scan-none pages bs (index + 1) (index + 1) f from (At-next false bs index f at) (omega arith)
      (omega arith) e (skip pages index last f from _ (At-first false bs index f at) q short run)
      (omega (arith, run.0), run.1)
scan-none pages (true ∷ bs) index last f from at le short e q run =
    elim (dec_lt (index - last + 1) pages) [
      | yes p ↦
          scan-none pages bs (index + 1) last f from (At-next true bs index f at) (omega arith)
            (omega arith) (ground arith) q (omega (arith, run.0), run.1)
      | no p ↦ absurd (ground arith)
    ]
