-- ===== src/Memory/Physical.antt =====
-- kernel/Core/Memory_Physical.cpp: the bitmap of the physical pages. An entry of the model's bitmap is
-- one bit of `memoryBitmap`, bit `i % 8` of byte `i / 8` at position `i`; it is set while the page is
-- free. Addresses are numbers below 2 ^ 32, and `nullptr` is 0.
pub mod Bits
pub mod Scan
pub mod Alloc
pub mod Pages
pub mod Regions
pub mod Ownership
mod Tests
use baby_osv.Base.{
  ℕ, zero, suc, ◌+◌, ◌-◌, ◌*◌, ◌/◌, ◌%◌, Bool, true, false, not, ◌&&◌, Option, none, some, List, [],
  ◌∷◌, ltb, leb, ◌==◌, if◌then◌else◌, length, set, replicate, add32,
}
use baby_osv.Base.Outcome.{Outcome, ok, fault, ◌>>=◌, ◌>>◌, assert}

abbrev pub page_size : ℕ
page_size = 4096

-- `sizeof(memoryBitmap)`, for 32 MB.
abbrev pub bitmap_bytes : ℕ
bitmap_bytes = 32 * 1024 * 1024 / page_size / 8

pub record Physical : Type 0 where
  pub memory_bitmap : List Bool
  pub max_memory_index : ℕ

unfoldable pub init : Physical
init = record { memory_bitmap = replicate (bitmap_bytes * 8) false; max_memory_index = 0 }

-- `memoryBitmap[i / 8] |= (1 << (i % 8))`, or `&= ~(…)` for `false`.
unfoldable pub set_bit : Bool → List Bool → ℕ → Outcome (List Bool)
set_bit v bits i = if ltb i (length bits) then ok (set bits i v) else fault

-- The loops of `AddFreeMemory` and `ReserveMemory` over `count` pages from `index`.
unfoldable pub mark : Bool → ℕ → ℕ → List Bool → Outcome (List Bool)
unfolding set_bit
mark v zero index bits = ok bits
mark v (suc count) index bits = elim (ltb bitmap_bytes (index / 8)) [
  | true ↦ ok bits
  | false ↦ set_bit v bits index >>= mark v count (index + 1)
]

-- The part of `AddFreeMemory` that updates `maxMemoryIndex`.
unfoldable pub raise_max : ℕ → ℕ → Physical → Physical
raise_max address len s =
    if ltb s.max_memory_index (add32 address len)
    then record s { max_memory_index = add32 address len / page_size }
    else s

unfoldable pub mark_pages : Bool → ℕ → ℕ → Physical → Outcome Physical
unfolding mark
mark_pages v index count s = do
  bits ← mark v count index s.memory_bitmap
  ok (record s { memory_bitmap = bits })

unfoldable pub add_free_memory : ℕ → ℕ → Physical → Outcome Physical
unfolding raise_max mark_pages
add_free_memory address len s =
    let s' = raise_max address len s in
    let pages_count = len / page_size in
    let index = address / page_size in
    if pages_count == 0
    then ok s'
    else if address % page_size == 0
    then mark_pages true index pages_count s'
    else if pages_count - 1 == 0
    then ok s'
    else mark_pages true (index + 1) (pages_count - 1) s'

-- The part of `ReserveMemory` that updates `maxMemoryIndex`.
unfoldable pub raise_max_reserved : ℕ → ℕ → Physical → Physical
raise_max_reserved address len s =
    if ltb s.max_memory_index (add32 address len / page_size)
    then record s { max_memory_index = add32 address len / page_size }
    else s

unfoldable pub reserve_memory : ℕ → ℕ → Physical → Outcome Physical
unfolding raise_max_reserved mark_pages
reserve_memory address len s =
    mark_pages false (address / page_size) (add32 len (page_size - 1) / page_size)
      (raise_max_reserved address len s)

-- The nested loops of `Alloc` over the bytes and their bits: `last` is `lastIndex`, and the list is
-- what is left of the bitmap from `index` on. The result is `lastIndex` and `index` at the return.
unfoldable pub scan : ℕ → List Bool → ℕ → ℕ → Option (ℕ × ℕ)
scan pages_count [] index last = none
scan pages_count (b ∷ bs) index last =
    if b && leb pages_count (index - last + 1)
    then some (last, index)
    else scan pages_count bs (index + 1) (if b then last else index + 1)

-- `for(c = lastIndex; c <= index; c++)`, on the count of rounds.
unfoldable pub clear_range : ℕ → ℕ → List Bool → List Bool
clear_range zero c bits = bits
clear_range (suc n) c bits = clear_range n (c + 1) (set bits c false)

abbrev pub take_range : Physical → Option (ℕ × ℕ) → ℕ × Physical
take_range s none = (0, s)
take_range s (some (last, index)) = (
  last * page_size,
  record s { memory_bitmap = clear_range (index + 1 - last) last s.memory_bitmap },
)

-- `FAIL` reports that there is no memory, and `nullptr` is returned.
unfoldable pub alloc : ℕ → Physical → ℕ × Physical
unfolding scan clear_range
alloc alloc_size s =
    take_range s (scan (add32 alloc_size (page_size - 1) / page_size) s.memory_bitmap 0 0)

-- The loops of `AllocPage`: the first bit that is set.
unfoldable pub first_free : List Bool → ℕ → Option ℕ
first_free [] index = none
first_free (b ∷ bs) index = if b then some index else first_free bs (index + 1)

abbrev pub take_page : Physical → Option ℕ → ℕ × Physical
take_page s none = (0, s)
take_page s (some index) =
    (index * page_size, record s { memory_bitmap = set s.memory_bitmap index false })

unfoldable pub alloc_page : Physical → ℕ × Physical
unfolding first_free
alloc_page s = take_page s (first_free s.memory_bitmap 0)

unfoldable pub free_page : ℕ → Physical → Outcome Physical
unfolding set_bit
free_page addr s = do
  assert (addr % page_size == 0)
  bits ← set_bit true s.memory_bitmap (addr / page_size)
  ok (record s { memory_bitmap = bits })
