-- ===== src/Fat/Table.antt =====
-- The file allocation table in kernel/FS/FAT.cpp: `GetNextCluster`, `SetCluster` and `AddCluster`.
-- `fat` is the table in memory, a function from the offset to the byte there.
pub mod Entry
pub mod Allocation
pub mod Chain
mod Tests
use Prim.Native.Nat.{bit_or}
use baby_osv.Base.{
  ℕ, zero, suc, ◌+◌, ◌-◌, ◌*◌, ◌/◌, ◌%◌, Bool, true, false, ◌&&◌, not, Option, none, some, ltb, leb,
  ◌==◌, if◌then◌else◌, update, u16_mod,
}

-- `FAT::Type`
pub data FatType : Type 0 where
  invalid fat12 fat16 fat32 : FatType

abbrev pub Bytes : Type 0
Bytes = ℕ → ℕ

-- `*(u16*)(fat + offset)`, read and written; the processor is little-endian.
abbrev pub get16 : Bytes → ℕ → ℕ
get16 fat offset = fat offset + 256 * fat (offset + 1)

unfoldable pub put16 : Bytes → ℕ → ℕ → Bytes
put16 fat offset v = update (update fat offset (v % 256)) (offset + 1) (v / 256 % 256)

-- The twelve bits of a cluster's entry, out of the word that holds them.
abbrev pub low_or_high : ℕ → ℕ → ℕ
low_or_high cluster word = if cluster % 2 == 1 then word / 16 else word % 4096

abbrev pub end_is_zero : ℕ → ℕ → ℕ
end_is_zero last next = if leb last next then 0 else next

-- The body of `GetNextCluster`, whose `cluster` is a `u16`.
abbrev pub next_of : FatType → Bytes → ℕ → ℕ
next_of fat12 fat cluster =
    if ltb cluster 2
    then 0
    else end_is_zero 0xff8 (low_or_high cluster (get16 fat (cluster + cluster / 2)))
next_of fat16 fat cluster =
    if ltb cluster 2 then 0 else end_is_zero 0xfff8 (get16 fat (2 * cluster))
next_of _ fat cluster = 0

-- A caller's cluster is a `u32`.
unfoldable pub get_next_cluster : FatType → Bytes → ℕ → ℕ
get_next_cluster type fat cluster = next_of type fat (cluster % u16_mod)

-- The offset in `SetCluster` and `AddCluster` is a `u16`.
abbrev pub offset_of : ℕ → ℕ
offset_of cluster = (cluster + cluster / 2) % u16_mod

-- The word that `SetCluster` stores over `value`.
unfoldable pub merged : ℕ → ℕ → ℕ → ℕ
merged cluster next value =
    if cluster % 2 == 1
    then value % 16 + (next * 16) % u16_mod
    else bit_or (value / 4096 * 4096) next

-- `SetCluster`, as far as the table in memory goes.
unfoldable pub set_cluster : Bytes → ℕ → ℕ → Bytes
unfolding put16 merged
set_cluster fat cluster next =
    put16 fat (offset_of cluster) (merged cluster next (get16 fat (offset_of cluster)))

-- The twelve bits that `AddCluster` reads for an index.
abbrev pub entry : Bytes → ℕ → ℕ
entry fat cluster = low_or_high cluster (get16 fat (offset_of cluster))

-- The search of `AddCluster` on the count of indices left.
unfoldable pub find_empty : Bytes → ℕ → ℕ → Option ℕ
find_empty fat zero index = none
find_empty fat (suc left) index =
    let rest = find_empty fat left (index + 1) in if entry fat index == 0 then some index else rest

pub record Added : Type 0 where
  pub fat : Bytes
  pub next_cluster : ℕ

abbrev pub link : Bytes → ℕ → ℕ → Bytes
link fat parent index = if ltb 0 parent then set_cluster fat parent index else fat

abbrev pub finish : Bytes → ℕ → Option ℕ → Option Added
finish fat parent none = none
finish fat parent (some index) =
    some (record { fat = set_cluster (link fat parent index) index 0xff8; next_cluster = index })

-- `AddCluster`; `none` is `Status::Undefined`. `total` is `totalFatEntries`.
unfoldable pub add_cluster : FatType → ℕ → Bytes → ℕ → Option Added
unfolding find_empty get_next_cluster
add_cluster type total fat parent =
    if ltb 0 parent && not (get_next_cluster type fat parent == 0)
    then none
    else finish fat parent (find_empty fat total 0)
