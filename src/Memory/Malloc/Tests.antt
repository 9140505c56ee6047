-- ===== src/Memory/Malloc/Tests.antt =====
-- Runs of the heap, and the theorems at concrete inputs.
use baby_osv.Base.{ℕ, ◌+◌, ◌≤◌, ◌≡◌, refl, ◌≢◌, [], ◌∷◌, arith}
use baby_osv.Base.Outcome.{ok}
use baby_osv.Memory.Malloc.{
  Block, Heap, header_size, alloc, free, find, malloc_add_page, total_size,
}
use baby_osv.Memory.Malloc.Cover.{holds, cover}
use baby_osv.Memory.Malloc.Alloc.{Allocated, alloc-Allocated}
use baby_osv.Memory.Malloc.Order.{Spaced, free_coalesces}
use baby_osv.Memory.Malloc.Sound.{IsSound, Fresh, alloc_disjoint, free-IsSound}

abbrev block : ℕ → ℕ → Block
block a n = record { address = a; length = n }

abbrev empty : Heap
empty = record { free = []; used = []; supply = 0x8010_0000 ∷ [] }

-- Two free blocks on the two sides of a used one.
abbrev gap : Heap
gap = record {
  free = block 0x1000 48 ∷ block 0x1080 16 ∷ [];
  used = block 0x1040 48 ∷ [];
  supply = 0x8010_0000 ∷ [];
}

-- All memory is in use.
abbrev full : Heap
full = record { free = []; used = block 0x1040 48 ∷ []; supply = [] }

-- The first allocation takes a page of four pages' length and splits it.
first_alloc :
    alloc 100 empty
    ≡ ok (
      0x8010_0010,
      record {
        free = block 0x8010_0074 16252 ∷ [];
        used = block 0x8010_0000 100 ∷ [];
        supply = [];
      },
    )
unfolding alloc
first_alloc = refl

-- Freeing the block in the middle joins all three.
free_joins : free 0x1050 gap ≡ ok (record gap { free = block 0x1000 144 ∷ []; used = [] })
unfolding free
free_joins = refl

gap-IsSound : IsSound gap
gap-IsSound = record { free_in = omega arith; used_in = omega arith; once = λ x. ground arith }

gap-Fresh : Fresh 20 0x8010_0000 gap
unfolding malloc_add_page
gap-Fresh x = ground arith

alloc_disjoint_example :
    (b : Block) × (h' : Heap) × (alloc 20 gap ≡ ok (b.address + header_size, h'))
    × (h'.used ≡ b ∷ gap.used)
    × (20 ≤ b.length)
    × ((x : ℕ) → holds x b ≡ 1 → cover x gap.used ≡ 0)
    × IsSound h'
unfolding total_size
alloc_disjoint_example =
    alloc_disjoint 20 0x8010_0000 gap [] gap-IsSound (omega arith) refl (omega arith) gap-Fresh

free-IsSound_example : (h' : Heap) × (free 0x1050 gap ≡ ok h') × IsSound h'
unfolding find
free-IsSound_example = free-IsSound 0x1050 gap (block 0x1040 48) gap-IsSound refl

alloc-Allocated_example :
    (ptr : ℕ) × (h' : Heap) × (alloc 20 gap ≡ ok (ptr, h')) × Allocated 20 0x8010_0000 gap ptr h'
unfolding total_size
alloc-Allocated_example =
    alloc-Allocated 20 0x8010_0000 gap [] gap-IsSound.free_in (omega arith) refl (omega arith)

gap_not_empty : gap.free ≢ []
gap_not_empty e = cc

free_coalesces_example : Spaced (block 0x1000 144 ∷ [])
unfolding find free
free_coalesces_example =
    free_coalesces 0x1050 gap (record gap { free = block 0x1000 144 ∷ []; used = [] })
      (block 0x1040 48) gap-IsSound.free_in gap-IsSound.used_in (omega arith) gap_not_empty
      (omega arith) refl refl
