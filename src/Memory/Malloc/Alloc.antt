-- ===== src/Memory/Malloc/Alloc.antt =====
-- `Alloc` of the heap: what it hands out, and that it always finds a block.
use native.Mathlib.Decide.{dec_lt}
use baby_osv.Base.{
  ℕ, ◌+◌, ◌*◌, ◌≤◌, ◌<◌, ◌≡◌, refl, ◌∙◌, sym, ◌≢◌, ◌⊎◌, inl, inr, false, none, some, List, [], ◌∷◌,
  ◌++◌, arith, ◌==◌, u32_mod, add32, subst, append-nil, Option-cases,
}
use baby_osv.Base.Outcome.{ok}
use baby_osv.Memory.Physical.{page_size}
use baby_osv.Memory.Malloc.{
  Block, Heap, Fit, header_size, alloc, fit_or_grow, first_fit, malloc_add_page, total_size, taken,
  left_over,
}
use baby_osv.Memory.Malloc.Cover.{
  holds, cover, cover-append, InMemory, AllIn, AllIn-append, FirstFit, here, there,
  first_fit-FirstFit, cover-FirstFit, FirstFit-InMemory,
}

-- A page's address at which the heap can use the page: not `nullptr`, and below the end of memory.
abbrev pub Usable : ℕ → ℕ → Type 0
Usable bytes a = (a ≢ 0) × (a + total_size bytes < u32_mod)

-- Sizes for which the rounding up to pages does not wrap around.
abbrev pub FitsWord : ℕ → Type 0
FitsWord bytes = bytes + header_size + page_size ≤ u32_mod

pub total_size-covers :
    (bytes : ℕ)
    → FitsWord bytes
    → (bytes + header_size ≤ total_size bytes) × (4 * page_size ≤ total_size bytes)
unfolding total_size
total_size-covers bytes h = ground arith

first_fit-none_behind :
    (bytes : ℕ) (c : Block) (bs : List Block)
    → c.length < bytes
    → first_fit bytes (c ∷ bs) ≡ none
    → first_fit bytes bs ≡ none
unfolding first_fit
first_fit-none_behind bytes c bs short e = elim (Option-cases (first_fit bytes bs)) [
  | inl missing ↦ missing
  | inr (f, found) ↦ absurd (ground arith)
]

first_fit-last :
    (bytes : ℕ) (bs : List Block) (b : Block)
    → first_fit bytes bs ≡ none
    → bytes ≤ b.length
    → (f : Fit) × (first_fit bytes (bs ++ (b ∷ [])) ≡ some f)
unfolding first_fit
first_fit-last bytes [] b e h =
    (record { block = taken bytes b; rest = left_over bytes b ++ [] }, ground arith)
first_fit-last bytes (c ∷ bs) b e h = elim (dec_lt c.length bytes) [
  | no fits ↦ absurd (ground arith)
  | yes short ↦
      let missing : first_fit bytes bs ≡ none = first_fit-none_behind bytes c bs short e in
      let (f, found) = first_fit-last bytes bs b missing h in
      (record f { rest = c ∷ f.rest }, ground arith)
]

FirstFit-enough :
    (bytes : ℕ) {bs : List Block} {f : Fit} → FirstFit bytes bs f → bytes ≤ f.block.length
unfolding taken
FirstFit-enough bytes (here {b} fits e) = subst (λ f. bytes ≤ f.block.length) e (ground arith)
FirstFit-enough bytes (there short r e) =
    subst (λ f. bytes ≤ f.block.length) e (FirstFit-enough bytes r)

-- What `Alloc` does: `block` moves to the used blocks. `grown` are the pages that were added to the
-- heap, none or the
-- one at `a`.
pub record Allocated (bytes a : ℕ) (h : Heap) (ptr : ℕ) (h' : Heap) : Type 0 where
  pub block : Block
  pub grown : List Block
  pub result : ptr ≡ block.address + header_size
  pub enough : bytes ≤ block.length
  pub inside : InMemory block
  pub used_now : h'.used ≡ block ∷ h.used
  pub bytes_kept : (x : ℕ) → holds x block + cover x h'.free ≡ cover x h.free + cover x grown
  pub free_inside : AllIn h'.free
  pub few : (grown ≡ []) ⊎ (grown ≡ malloc_add_page bytes a ∷ [])

from_fit :
    (bytes a : ℕ) (h : Heap) (grown : List Block) {f : Fit} {supply : List ℕ}
    → AllIn h.free
    → AllIn grown
    → ((grown ≡ []) ⊎ (grown ≡ malloc_add_page bytes a ∷ []))
    → FirstFit bytes (h.free ++ grown) f
    → Allocated bytes a h
        (add32 f.block.address header_size)
        (record { free = f.rest; used = f.block ∷ h.used; supply = supply })
from_fit bytes a h grown {f} i k few fit =
    let inside = FirstFit-InMemory bytes (AllIn-append h.free grown i k) fit in
    record {
      block = f.block;
      grown = grown;
      result = omega (arith, inside.0);
      enough = FirstFit-enough bytes fit;
      inside = inside.0;
      used_now = refl;
      bytes_kept = λ x.
          cover-FirstFit x bytes (AllIn-append h.free grown i k) fit ∙ cover-append x h.free grown;
      free_inside = inside.1;
      few = few;
    }

malloc_add_page-InMemory :
    (bytes a : ℕ)
    → FitsWord bytes
    → a + total_size bytes < u32_mod
    → InMemory (malloc_add_page bytes a) × (bytes ≤ (malloc_add_page bytes a).length)
unfolding malloc_add_page
malloc_add_page-InMemory bytes a fits below = omega (arith, total_size-covers bytes fits)

fit_now :
    (bytes : ℕ) (supply : List ℕ) (free : List Block) {f : Fit}
    → first_fit bytes free ≡ some f
    → fit_or_grow bytes supply free ≡ ok (f, supply)
unfolding fit_or_grow
fit_now bytes [] free e = rw (e, fit_or_grow)
fit_now bytes (a ∷ supply) free e = rw (e, fit_or_grow)

fit_grown :
    (bytes a : ℕ) (supply : List ℕ) (free : List Block) {f : Fit}
    → first_fit bytes free ≡ none
    → a ≢ 0
    → first_fit bytes (free ++ (malloc_add_page bytes a ∷ [])) ≡ some f
    → fit_or_grow bytes (a ∷ supply) free ≡ ok (f, supply)
unfolding fit_or_grow
fit_grown bytes a supply free e ne found =
    let got : (a == 0) ≡ false = ground arith in
    rw (e, fit_or_grow, got) (fit_now bytes supply (free ++ (malloc_add_page bytes a ∷ [])) found)

alloc-ok :
    (bytes : ℕ) (h : Heap) {f : Fit} {supply : List ℕ}
    → fit_or_grow bytes h.supply h.free ≡ ok (f, supply)
    → alloc bytes h
      ≡ ok (
        add32 f.block.address header_size,
        record { free = f.rest; used = f.block ∷ h.used; supply = supply },
      )
unfolding alloc
alloc-ok bytes h e = rw e

-- If every block of the free list lies in memory, the size does not wrap around when it is rounded up
-- to pages, and the next page that `Logical::Alloc` would give is usable, `Alloc` succeeds: it moves
-- one block of at least that size from the free list to the used blocks, adding at most one page, and
-- every byte of the heap and of that page is in as many blocks afterwards as before.
pub alloc-Allocated :
    (bytes a : ℕ) (h : Heap) (supply : List ℕ)
    → AllIn h.free
    → FitsWord bytes
    → h.supply ≡ a ∷ supply
    → Usable bytes a
    → (ptr : ℕ) × (h' : Heap) × (alloc bytes h ≡ ok (ptr, h')) × Allocated bytes a h ptr h'
alloc-Allocated bytes a h supply i fits next usable = elim (Option-cases (first_fit bytes h.free)) [
  | inl full ↦
      let (page_in, long) = malloc_add_page-InMemory bytes a fits usable.1 in
      let (f, found) = first_fit-last bytes h.free (malloc_add_page bytes a) full long in
      (
        _,
        _,
        alloc-ok bytes h {supply = supply}
            (rw next (fit_grown bytes a supply h.free full usable.0 found)),
        from_fit bytes a h (malloc_add_page bytes a ∷ []) i (page_in, tt) (inr refl)
            (first_fit-FirstFit bytes _ found),
      )
  | inr (f, found) ↦ (
    _,
    _,
    alloc-ok bytes h (fit_now bytes h.supply h.free found),
    from_fit bytes a h [] i tt (inl refl) (
        subst (λ l. FirstFit bytes l f) (sym (append-nil h.free))
          (first_fit-FirstFit bytes _ found)),
  )
]
