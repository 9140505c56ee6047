-- ===== src/Memory/Physical/Ownership.antt =====
-- Who holds which page, over any sequence of allocations and releases.
use baby_osv.Base.{
  ℕ, ◌+◌, ◌*◌, ◌/◌, ◌≤◌, ◌<◌, ◌≡◌, ap, ◌≢◌, inl, inr, Bool, true, false, arith, length, ltb, leb,
  ◌==◌, ◌&&◌, ◌||◌, not, u32_mod,
}
use mathlib.Core.Bool.{false≢true}
use native.Mathlib.Decide.{dec_lt}
use baby_osv.Base.Outcome.{ok}
use baby_osv.Memory.Physical.{Physical, page_size, alloc, alloc_page, free_page}
use baby_osv.Memory.Physical.Bits.{is_free}
use baby_osv.Memory.Physical.Alloc.{pages_for, alloc_lem}
use baby_osv.Memory.Physical.Pages.{alloc_page_lem, free_page_lem}

-- The allocator and the pages that its clients hold.
pub record World : Type 0 where
  pub memory : Physical
  pub held : ℕ → Bool

abbrev pub hold : (ℕ → Bool) → ℕ → ℕ → ℕ → Bool
hold held first count j = (leb first j && ltb j (first + count)) || held j

abbrev pub let_go : (ℕ → Bool) → ℕ → ℕ → Bool
let_go held page j = not (page == j) && held j

-- One call of a client: it gets a page, or a run of pages (the result is not `nullptr`), or gives a
-- page back that it holds.
pub data Step : World → World → Type 0 where
  one_page :
      (w : World) (first : ℕ)
      → first ≢ 0
      → (alloc_page w.memory).0 ≡ first * page_size
      → Step w (record { memory = (alloc_page w.memory).1; held = hold w.held first 1 })
  more_pages :
      (w : World) (size first : ℕ)
      → 0 < size
      → size + page_size ≤ u32_mod
      → first ≢ 0
      → (alloc size w.memory).0 ≡ first * page_size
      → Step w
          (record { memory = (alloc size w.memory).1; held = hold w.held first (pages_for size) })
  gives_back :
      (w : World) (page : ℕ) (m : Physical)
      → w.held page ≡ true
      → free_page (page * page_size) w.memory ≡ ok m
      → Step w (record { memory = m; held = let_go w.held page })

pub data Reach (m : Physical) : World → Type 0 where
  boot : Reach m (record { memory = m; held = λ _. false })
  later : {w w' : World} → Reach m w → Step w w' → Reach m w'

-- No page that is held is free in the bitmap.
abbrev pub Apart : World → Type 0
Apart w = (j : ℕ) → w.held j ≡ true → is_free w.memory.memory_bitmap j ≡ false

page-Apart :
    (w : World) (first : ℕ)
    → Apart w
    → first ≢ 0
    → (alloc_page w.memory).0 ≡ first * page_size
    → (j : ℕ) → hold w.held first 1 j ≡ true
    → is_free (alloc_page w.memory).1.memory_bitmap j ≡ false
page-Apart w first apart got at j h = elim (alloc_page_lem w.memory) [
  | inl (e, all) ↦ absurd (got (omega (arith, ap (λ r. r.0) e, at)))
  | inr (page, e, taken) ↦
      let same : page ≡ first = omega (arith, e, at) in ground (arith, taken.changed j, apart j)
]

pages-Apart :
    (w : World) (size first : ℕ)
    → Apart w
    → 0 < size
    → size + page_size ≤ u32_mod
    → first ≢ 0
    → (alloc size w.memory).0 ≡ first * page_size
    → (j : ℕ) → hold w.held first (pages_for size) j ≡ true
    → is_free (alloc size w.memory).1.memory_bitmap j ≡ false
pages-Apart w size first apart pos fits got at j h = elim (alloc_lem size w.memory pos fits) [
  | inl (e, all) ↦ absurd (got (omega (arith, ap (λ r. r.0) e, at)))
  | inr (found, e, taken) ↦
      let same : found ≡ first = omega (arith, e, at) in
      ground (arith, taken.reserved j, taken.others j, apart j)
]

gives_back-Apart :
    (w : World) (page : ℕ) (m : Physical)
    → Apart w
    → free_page (page * page_size) w.memory ≡ ok m
    → (j : ℕ) → let_go w.held page j ≡ true
    → is_free m.memory_bitmap j ≡ false
gives_back-Apart w page m apart e j h =
    elim (dec_lt (page * page_size / page_size) (length w.memory.memory_bitmap)) [
      | yes p ↦
          let (m', e', changed, _) =
            (free_page_lem (page * page_size) w.memory).2 (omega arith) p in
          let same : m' ≡ m = cc in rw (← same) (ground (arith, changed j, apart j))
      | no p ↦
          let broken = (free_page_lem (page * page_size) w.memory).1 (omega arith) (omega arith) in
          absurd (cc)
    ]

Step-Apart : {w w' : World} → Step w w' → Apart w → Apart w'
Step-Apart (one_page w first got at) apart = page-Apart w first apart got at
Step-Apart (more_pages w size first pos fits got at) apart =
    pages-Apart w size first apart pos fits got at
Step-Apart (gives_back w page m owns e) apart = gives_back-Apart w page m apart e

-- In every state that calls of `Alloc`, `AllocPage` and `FreePage` lead to, where clients give back
-- only pages that they hold, no held page is free in the bitmap.
pub Reach-Apart : {m : Physical} {w : World} → Reach m w → Apart w
Reach-Apart boot = λ j h. absurd (false≢true h)
Reach-Apart (later r st) = Step-Apart st (Reach-Apart r)

-- In every such state, a page that `AllocPage` returns, or that lies in the run that
-- `Alloc` returns, is held by no one.
pub no_double_allocation :
    {m : Physical} {w : World} (first : ℕ)
    → Reach m w
    → first ≢ 0
    → ((alloc_page w.memory).0 ≡ first * page_size → w.held first ≡ false)
      × ((size : ℕ)
          → 0 < size
          → size + page_size ≤ u32_mod
          → (alloc size w.memory).0 ≡ first * page_size
          → (j : ℕ) → first ≤ j
          → j < first + pages_for size
          → w.held j ≡ false)
no_double_allocation {w} first r got = (
  λ at. elim (alloc_page_lem w.memory) [
    | inl (e, all) ↦ absurd (got (omega (arith, ap (λ r. r.0) e, at)))
    | inr (page, e, taken) ↦
        let same : page ≡ first = omega (arith, e, at) in
        ground (arith, taken.was_free, Reach-Apart r first)
  ],
  λ size pos fits at j lo hi. elim (alloc_lem size w.memory pos fits) [
    | inl (e, all) ↦ absurd (got (omega (arith, ap (λ r. r.0) e, at)))
    | inr (found, e, taken) ↦
        let same : found ≡ first = omega (arith, e, at) in
        ground (arith, taken.run.1 j, Reach-Apart r j)
  ],
)
