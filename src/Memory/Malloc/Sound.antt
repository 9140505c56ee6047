-- ===== src/Memory/Malloc/Sound.antt =====
-- No byte of the heap belongs to two blocks, whatever is allocated and freed.
use baby_osv.Base.{
  ℕ, ◌+◌, ◌≤◌, ◌≡◌, ap, ◌∙◌, sym, inl, inr, List-cases, List, ◌∷◌, arith, sub32, some, subst,
}
use baby_osv.Base.Outcome.{ok}
use baby_osv.Memory.Malloc.{Block, Heap, header_size, alloc, free, find, malloc_add_page}
use baby_osv.Memory.Malloc.Cover.{holds, cover, AllIn}
use baby_osv.Memory.Malloc.Alloc.{Allocated, Usable, FitsWord, alloc-Allocated}
use baby_osv.Memory.Malloc.Free.{free_lem, free_leaks}

-- The heap's invariant: its blocks lie in memory, and every byte lies in at most one of them.
pub record IsSound (h : Heap) : Type 0 where
  pub free_in : AllIn h.free
  pub used_in : AllIn h.used
  pub once : (x : ℕ) → cover x h.free + cover x h.used ≤ 1

-- The page at `a` has no byte in common with the heap.
abbrev pub Fresh : ℕ → ℕ → Heap → Type 0
Fresh bytes a h = (x : ℕ) → holds x (malloc_add_page bytes a) + cover x h.free + cover x h.used ≤ 1

grown-once :
    {bytes a ptr : ℕ} {h h' : Heap} (x : ℕ)
    → IsSound h
    → Fresh bytes a h
    → (r : Allocated bytes a h ptr h') → cover x r.grown + cover x h.free + cover x h.used ≤ 1
grown-once x v fresh r = elim r.few [
  | inl e ↦ omega (arith, ap (cover x) e, v.once x)
  | inr e ↦ omega (arith, ap (cover x) e, fresh x)
]

Allocated-IsSound :
    {bytes a ptr : ℕ} {h h' : Heap}
    → IsSound h
    → Fresh bytes a h
    → Allocated bytes a h ptr h'
    → IsSound h'
Allocated-IsSound {h} v fresh r = record {
  free_in = r.free_inside;
  used_in = subst AllIn (sym r.used_now) (r.inside, v.used_in);
  once = λ x. omega (arith, grown-once x v fresh r, r.bytes_kept x, ap (cover x) r.used_now);
}

-- In a sound heap, for a size that does not wrap around and a next page that is usable and has no
-- byte in common with the heap, `Alloc` succeeds, the heap stays sound, and the block that is handed
-- out is long enough and has no byte in common with any used block.
pub alloc_disjoint :
    (bytes a : ℕ) (h : Heap) (supply : List ℕ)
    → IsSound h
    → FitsWord bytes
    → h.supply ≡ a ∷ supply
    → Usable bytes a
    → Fresh bytes a h
    → (b : Block) × (h' : Heap) × (alloc bytes h ≡ ok (b.address + header_size, h'))
      × (h'.used ≡ b ∷ h.used)
      × (bytes ≤ b.length)
      × ((x : ℕ) → holds x b ≡ 1 → cover x h.used ≡ 0)
      × IsSound h'
alloc_disjoint bytes a h supply v fits next usable fresh =
    let (ptr, h', done, r) = alloc-Allocated bytes a h supply v.free_in fits next usable in
    (
      r.block,
      h',
      done ∙ ap (λ (p : ℕ). ok (p, h')) r.result,
      r.used_now,
      r.enough,
      λ x e. omega (arith, grown-once x v fresh r, r.bytes_kept x, e),
      Allocated-IsSound v fresh r,
    )

-- In a sound heap, `Free` of the address of a used block succeeds, and the heap stays sound.
pub free-IsSound :
    (ptr : ℕ) (h : Heap) (b : Block)
    → IsSound h
    → find (sub32 ptr header_size) h.used ≡ some b
    → (h' : Heap) × (free ptr h ≡ ok h') × IsSound h'
free-IsSound ptr h b v e = elim (List-cases h.free) [
  | inl empty ↦
      let (h', done, none_free, used, inside) = free_leaks ptr h b empty v.used_in e in
      (
        h',
        done,
        record {
          free_in = subst AllIn (sym none_free) tt;
          used_in = inside;
          once = λ x. omega (arith, used x, v.once x, ap (cover x) none_free);
        },
      )
  | inr some_free ↦
      let (h', done, r) = free_lem ptr h b v.free_in v.used_in some_free e in
      (
        h',
        done,
        record {
          free_in = r.free_inside;
          used_in = r.used_inside;
          once = λ x. omega (arith, r.bytes_free x, r.bytes_used x, v.once x);
        },
      )
]
