-- ===== src/Memory/Physical/Tests.antt =====
-- Runs of the page allocator, and the theorems at concrete inputs.
use baby_osv.Base.{ℕ, ◌*◌, ◌≡◌, refl, ◌⊎◌, true, false, [], ◌∷◌, arith, length, length-replicate}
use baby_osv.Memory.Physical.{Physical, page_size, bitmap_bytes, init, alloc, alloc_page, scan}
use baby_osv.Memory.Physical.Bits.{is_free}
use baby_osv.Memory.Physical.Scan.{Run}
use baby_osv.Memory.Physical.Alloc.{pages_for, Taken, alloc_lem}
use baby_osv.Memory.Physical.Ownership.{
  World, hold, one_page, Reach, boot, later, Apart, Reach-Apart,
}

-- Eight pages, of which 1, 3, 4 and 5 are free.
abbrev some_free : Physical
some_free = record {
  memory_bitmap = false ∷ true ∷ false ∷ true ∷ true ∷ true ∷ false ∷ false ∷ [];
  max_memory_index = 8;
}

alloc_two_pages : (alloc 8192 some_free).0 ≡ 3 * page_size
unfolding alloc scan
alloc_two_pages = refl

alloc_lem_example :
    ((alloc 5000 some_free ≡ (0, some_free))
      × ((from : ℕ) → ¬ Run (is_free some_free.memory_bitmap) 8 (pages_for 5000) from))
    ⊎ ((first : ℕ) × ((alloc 5000 some_free).0 ≡ first * page_size)
        × Taken some_free (pages_for 5000) first (alloc 5000 some_free).1)
alloc_lem_example = alloc_lem 5000 some_free (omega arith) (omega arith)

-- Page 1 has been handed out.
abbrev one_held : World
one_held = record { memory = (alloc_page some_free).1; held = hold (λ _. false) 1 1 }

one_held-Reach : Reach some_free one_held
unfolding alloc_page
one_held-Reach = later boot (one_page _ 1 (omega arith) refl)

Reach-Apart_example : Apart one_held
Reach-Apart_example = Reach-Apart one_held-Reach

length-init : length init.memory_bitmap ≡ bitmap_bytes * 8
unfolding init
length-init = length-replicate (bitmap_bytes * 8) false
