-- ===== src/Memory/Physical/Alloc.antt =====
-- `Physical::Alloc`: the pages it hands out.
use baby_osv.Base.{
  ℕ, ◌+◌, ◌-◌, ◌*◌, ◌/◌, ◌≤◌, ◌<◌, ◌≡◌, ap, ◌⊎◌, inl, inr, false, none, some, arith, length,
  Option-cases, add32, u32_mod,
}
use baby_osv.Memory.Physical.{Physical, page_size, scan, alloc, take_range}
use baby_osv.Memory.Physical.Bits.{is_free, is_free_lt, clear_range_in, clear_range_out}
use baby_osv.Memory.Physical.Scan.{Run, scan-Found, scan-first, scan-none}

-- The number of pages that `Alloc` looks for.
abbrev pub pages_for : ℕ → ℕ
pages_for size = add32 size (page_size - 1) / page_size

-- `first` is where the lowest run of enough free pages starts; they are reserved, and no other page
-- changes.
pub record Taken (s : Physical) (pages first : ℕ) (s' : Physical) : Type 0 where
  pub run : Run (is_free s.memory_bitmap) (length s.memory_bitmap) pages first
  pub lowest :
      (from : ℕ) → Run (is_free s.memory_bitmap) (length s.memory_bitmap) pages from → first ≤ from
  pub reserved : (j : ℕ) → first ≤ j → j < first + pages → is_free s'.memory_bitmap j ≡ false
  pub others :
      (j : ℕ)
      → (j < first) ⊎ (first + pages ≤ j)
      → is_free s'.memory_bitmap j ≡ is_free s.memory_bitmap j

alloc-some :
    (size : ℕ) (s : Physical) {lo hi : ℕ}
    → scan (pages_for size) s.memory_bitmap 0 0 ≡ some (lo, hi)
    → alloc size s ≡ take_range s (some (lo, hi))
unfolding alloc
alloc-some size s e = rw e

alloc-none :
    (size : ℕ) (s : Physical)
    → scan (pages_for size) s.memory_bitmap 0 0 ≡ none
    → alloc size s ≡ (0, s)
unfolding alloc
alloc-none size s e = rw e

scan-Taken :
    (pages : ℕ) (s : Physical) {lo hi : ℕ}
    → 0 < pages
    → scan pages s.memory_bitmap 0 0 ≡ some (lo, hi)
    → Taken s pages lo (take_range s (some (lo, hi))).1
scan-Taken pages s {lo} {hi} p e =
    let found =
      scan-Found pages s.memory_bitmap 0 0 (is_free s.memory_bitmap)
        (λ j. ap (is_free s.memory_bitmap) (omega arith)) (omega arith)
        (λ j a b. absurd (omega arith)) (λ q. omega arith) e in
    let exact : lo + pages ≡ hi + 1 = omega (arith, found.ordered, found.enough, found.tight p) in
    record {
      run = (
        omega (
          arith,
          exact,
          is_free_lt s.memory_bitmap hi (found.free hi found.ordered (omega arith)),
        ),
        λ j a b. found.free j a (omega (arith, exact)),
      );
      lowest = λ from run.
          scan-first pages s.memory_bitmap 0 0 (is_free s.memory_bitmap) from
            (λ j. ap (is_free s.memory_bitmap) (omega arith)) (omega arith) (omega arith) e
            (omega arith) (omega (arith, run.0), run.1);
      reserved =
          λ j a b. clear_range_in (hi + 1 - lo) lo s.memory_bitmap j a (omega (arith, exact));
      others = λ j out. clear_range_out (hi + 1 - lo) lo s.memory_bitmap j (omega (arith, exact));
    }

-- For a size from 1 to 2 ^ 32 - 4096, either `Alloc` returns `nullptr`, no run of enough free pages
-- exists and nothing changes, or it returns the address of the lowest such run, whose pages are then
-- reserved, and no other page changes.
pub alloc_lem :
    (size : ℕ) (s : Physical)
    → 0 < size
    → size + page_size ≤ u32_mod
    → ((alloc size s ≡ (0, s))
        × ((from : ℕ)
            → ¬ Run (is_free s.memory_bitmap) (length s.memory_bitmap) (pages_for size) from))
      ⊎ ((first : ℕ) × ((alloc size s).0 ≡ first * page_size)
          × Taken s (pages_for size) first (alloc size s).1)
alloc_lem size s pos fits = elim (Option-cases (scan (pages_for size) s.memory_bitmap 0 0)) [
  | inl e ↦ inl (
    alloc-none size s e,
    λ from run.
        scan-none (pages_for size) s.memory_bitmap 0 0 (is_free s.memory_bitmap) from
          (λ j. ap (is_free s.memory_bitmap) (omega arith)) (omega arith) (omega arith) e
          (omega arith) (omega (arith, run.0), run.1),
  )
  | inr ((lo, hi), e) ↦
      inr (lo, rw (alloc-some size s e), rw (alloc-some size s e) (scan-Taken _ s (omega arith) e))
]
