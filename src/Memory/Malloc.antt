-- ===== src/Memory/Malloc.antt =====
-- kernel/Core/Memory.cpp: `MallocAddPage`, `Alloc`, `MallocMerge`, `Free` and `Size`. A block is a
-- `MallocHeader` with its address; `free` is the list from `mallocPage` along `next`, and `used` holds
-- the blocks whose flag `used` is set. `supply` holds the addresses that the calls of
-- `Logical::Alloc` return, 0 for `nullptr`.
pub mod Cover
pub mod Alloc
pub mod Free
pub mod Order
pub mod Sound
mod Tests
use baby_osv.Base.{
  ℕ, ◌+◌, ◌-◌, ◌*◌, ◌/◌, Bool, true, false, Option, none, some, List, [], ◌∷◌, ◌++◌, ltb, leb, ◌==◌,
  if◌then◌else◌, add32, sub32,
}
use baby_osv.Base.Outcome.{Outcome, ok, halted, fault, ◌>>=◌}
use baby_osv.Memory.Physical.{page_size}

pub record Block : Type 0 where
  pub address : ℕ
  pub length : ℕ

pub record Heap : Type 0 where
  pub free : List Block
  pub used : List Block
  pub supply : List ℕ

-- `sizeof(MallocHeader)`
abbrev pub header_size : ℕ
header_size = 16

abbrev pub at_least : ℕ → ℕ → ℕ
at_least n k = if ltb n k then k else n

-- `totalSize` of `MallocAddPage`; `& ~(PAGE_SIZE - 1)` rounds down to pages.
unfoldable pub total_size : ℕ → ℕ
total_size bytes =
    at_least (add32 (add32 bytes header_size) (page_size - 1) / page_size * page_size)
      (4 * page_size)

unfoldable pub malloc_add_page : ℕ → ℕ → Block
unfolding total_size
malloc_add_page bytes address = record {
  address = address;
  length = total_size bytes - header_size;
}

-- The block that is found, less what is split off behind it.
unfoldable pub taken : ℕ → Block → Block
taken bytes b = if ltb header_size (b.length - bytes) then record b { length = bytes } else b

unfoldable pub left_over : ℕ → Block → List Block
left_over bytes b =
    if ltb header_size (b.length - bytes)
    then record {
      address = add32 (add32 b.address bytes) header_size;
      length = b.length - bytes - header_size;
    }
      ∷ []
    else []

pub record Fit : Type 0 where
  pub block : Block
  pub rest : List Block

abbrev pub behind : Block → Option Fit → Option Fit
behind b none = none
behind b (some f) = some (record f { rest = b ∷ f.rest })

-- The loop of `Alloc` over the free list: the first block that is long enough leaves it.
unfoldable pub first_fit : ℕ → List Block → Option Fit
unfolding taken left_over
first_fit bytes [] = none
first_fit bytes (b ∷ bs) =
    if leb bytes b.length
    then some (record { block = taken bytes b; rest = left_over bytes b ++ bs })
    else behind b (first_fit bytes bs)

-- `Alloc` over the free list and what `Logical::Alloc` will return. Where no block fits, a page is
-- appended and the loop goes on with it; the blocks before it still do not fit.
unfoldable pub fit_or_grow : ℕ → List ℕ → List Block → Outcome (Fit × List ℕ)
unfolding first_fit malloc_add_page
fit_or_grow bytes [] free = elim (first_fit bytes free) [ some f ↦ ok (f, []) | none ↦ halted ]
fit_or_grow bytes (address ∷ supply) free = elim (first_fit bytes free) [
  | some f ↦ ok (f, address ∷ supply)
  | none ↦ elim (address == 0) [
    | true ↦ halted
    | false ↦ fit_or_grow bytes supply (free ++ (malloc_add_page bytes address ∷ []))
  ]
]

-- The result is the address behind the header, `ptr + 1`.
unfoldable pub alloc : ℕ → Heap → Outcome (ℕ × Heap)
unfolding fit_or_grow
alloc bytes h = do
  (f, supply) ← fit_or_grow bytes h.supply h.free
  ok (
    add32 f.block.address header_size,
    record { free = f.rest; used = f.block ∷ h.used; supply = supply },
  )

-- The address just behind a block.
abbrev pub end_of : Block → ℕ
end_of b = add32 (add32 b.address b.length) header_size

unfoldable pub join : Block → Block → Block
join b c = record b { length = add32 (add32 b.length c.length) header_size }

-- `MallocMerge` from the block `b` on. A last block that ends at the end of memory would be taken for
-- the neighbour of `nullptr`.
unfoldable pub merge_from : Block → List Block → Outcome (List Block)
unfolding join
merge_from b [] = if end_of b == 0 then fault else ok (b ∷ [])
merge_from b (c ∷ cs) = elim (c.address == end_of b) [
  | true ↦ merge_from (join b c) cs
  | false ↦ do bs ← merge_from c cs; ok (b ∷ bs)
]

unfoldable pub malloc_merge : List Block → Outcome (List Block)
unfolding merge_from
malloc_merge [] = ok []
malloc_merge (b ∷ bs) = merge_from b bs

-- The loop of `Free`: behind `p`, before the first block above `b`.
unfoldable pub insert_behind : Block → Block → List Block → List Block
insert_behind b p [] = p ∷ b ∷ []
insert_behind b p (q ∷ qs) =
    if ltb b.address q.address then p ∷ b ∷ q ∷ qs else p ∷ insert_behind b q qs

-- With no free block `mallocPage` is `nullptr`, below every header, and the loop makes no round.
unfoldable pub insert : Block → List Block → List Block
unfolding insert_behind
insert b [] = []
insert b (p ∷ ps) = if ltb b.address p.address then b ∷ p ∷ ps else insert_behind b p ps

unfoldable pub find : ℕ → List Block → Option Block
find a [] = none
find a (b ∷ bs) = if b.address == a then some b else find a bs

unfoldable pub drop_block : ℕ → List Block → List Block
drop_block a [] = []
drop_block a (b ∷ bs) = if b.address == a then bs else b ∷ drop_block a bs

abbrev pub is_block : Option Block → Bool
is_block none = false
is_block (some b) = true

unfoldable pub release : Block → Heap → Outcome Heap
unfolding drop_block insert malloc_merge
release b h = do
  blocks ← malloc_merge (insert b h.free)
  ok (record h { free = blocks; used = drop_block b.address h.used })

-- `Free`: a block that is free is reported (`FAIL`) and left alone; an address with no block in front
-- of it makes the code read memory that is not a header.
unfoldable pub free : ℕ → Heap → Outcome Heap
unfolding find release
free ptr h =
    let hdr = sub32 ptr header_size in
    elim (find hdr h.used) [
      | some b ↦ release b h
      | none ↦ if is_block (find hdr h.free) then ok h else fault
    ]

-- `Size`, of the block in front of the address.
unfoldable pub size : ℕ → Heap → Option ℕ
unfolding find
size ptr h = elim (find (sub32 ptr header_size) h.used) [
  | some b ↦ some (sub32 b.length header_size)
  | none ↦ none
]
