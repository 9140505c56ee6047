-- ===== src/Fat/Volume.antt =====
-- The state of a mounted volume in kernel/FS/FAT.cpp and its cache of clusters: `GetCache`, `FlushCache`,
-- `FreeCache` and `Flush`, and `SetCluster` and `AddCluster` with their writes to the disk. `disk` gives
-- the bytes of each sector of the partition, and `accepts` the sectors that a write changes; the code ignores
-- the results of reads and writes, and reads are taken to succeed. A `Cache*` is the cluster of the object: the list never holds two objects of one
-- cluster, and an object's cluster never changes.
pub mod Objects
pub mod View
pub mod Steps
pub mod Saved
mod Tests
use baby_osv.Base.{
  ℕ, zero, suc, ◌+◌, ◌*◌, ◌/◌, ◌%◌, Bool, true, false, ◌&&◌, not, Option, none, some, List, [], ◌∷◌,
  ◌++◌, ltb, ◌==◌, if◌then◌else◌, update, add32, sub32, u32_mod,
}
use baby_osv.Fat.Table.{FatType, Bytes, set_cluster, get_next_cluster, find_empty}
use baby_osv.Fat.Layout.{Bpb, get_root_sector, get_sector_to_read, total_fat_entries}

abbrev pub Disk : Type 0
Disk = ℕ → ℕ → ℕ

pub record Cache : Type 0 where
  pub ref_count : ℕ
  pub cluster : ℕ
  pub dirty : Bool
  pub buffer_size : ℕ
  pub buffer : ℕ → ℕ

pub record Info : Type 0 where
  pub type : FatType
  pub bpb : Bpb
  pub fat : Bytes
  pub disk : Disk
  pub accepts : ℕ → Bool
  pub cache_objects : List Cache

-- Where the bytes of a cluster are; cluster 0 stands for the root directory.
unfoldable pub sector_of : Bpb → ℕ → ℕ
sector_of b cluster = get_sector_to_read b cluster (cluster == 0)

abbrev pub sectors_of : Bpb → ℕ → ℕ
sectors_of b cluster =
    if cluster == 0 then b.root_entries_count * 32 / 512 else b.sectors_per_cluster

-- The buffer after the reads of the sectors from `sector` on.
abbrev pub load : Disk → ℕ → ℕ → ℕ
load disk sector offset = disk (sector + offset / 512) (offset % 512)

-- The first sector that `GetCache` reads.
unfoldable pub first_sector : Bpb → ℕ → ℕ
first_sector b cluster =
    if cluster == 0 then get_root_sector b else get_sector_to_read b cluster false

unfoldable pub new_cache : Info → ℕ → Cache
unfolding first_sector
new_cache i cluster = record {
  ref_count = 1;
  cluster = cluster;
  dirty = false;
  buffer_size = sectors_of i.bpb cluster * 512;
  buffer = load i.disk (first_sector i.bpb cluster);
}

unfoldable pub find_cache : ℕ → List Cache → Option Cache
find_cache cluster [] = none
find_cache cluster (v ∷ vs) = if v.cluster == cluster then some v else find_cache cluster vs

-- A write through the pointer to a cluster's object.
unfoldable pub change : ℕ → (Cache → Cache) → List Cache → List Cache
change cluster f [] = []
change cluster f (v ∷ vs) = if v.cluster == cluster then f v ∷ vs else v ∷ change cluster f vs

abbrev pub retain : Cache → Cache
retain v = record v { ref_count = add32 v.ref_count 1 }

abbrev pub release : Cache → Cache
release v = record v { ref_count = sub32 v.ref_count 1 }

abbrev pub clean : Cache → Cache
clean v = record v { dirty = false }

abbrev pub get_from : Option Cache → ℕ → Info → Info
get_from none cluster i = record i { cache_objects = i.cache_objects ++ (new_cache i cluster ∷ []) }
get_from (some v) cluster i = record i { cache_objects = change cluster retain i.cache_objects }

unfoldable pub get_cache : ℕ → Info → Info
unfolding find_cache change new_cache
get_cache cluster i = get_from (find_cache cluster i.cache_objects) cluster i

-- `part->Write`
abbrev pub write_sector : (ℕ → Bool) → ℕ → (ℕ → ℕ) → Disk → Disk
write_sector accepts sector buffer disk = if accepts sector then update disk sector buffer else disk

-- The loops over `part->Write` for `n` more sectors, from the buffer's sector `a` on.
unfoldable pub write_sectors : (ℕ → Bool) → ℕ → ℕ → ℕ → (ℕ → ℕ) → Disk → Disk
write_sectors accepts zero a sector buffer disk = disk
write_sectors accepts (suc n) a sector buffer disk =
    write_sectors accepts n (a + 1) sector buffer
      (write_sector accepts (sector + a) (λ o. buffer (a * 512 + o)) disk)

abbrev pub flush_object : Option Cache → ℕ → Info → Info
flush_object none cluster i = i
flush_object (some v) cluster i =
    if v.dirty
    then record i {
      disk =
          write_sectors i.accepts ((v.buffer_size + 511) / 512) 0 (sector_of i.bpb cluster) v.buffer
            i.disk;
      cache_objects = change cluster clean i.cache_objects;
    }
    else i

unfoldable pub flush_cache : ℕ → Info → Info
unfolding find_cache change write_sectors sector_of
flush_cache cluster i = flush_object (find_cache cluster i.cache_objects) cluster i

abbrev pub is_unused : Option Cache → Bool
is_unused none = false
is_unused (some v) = (v.ref_count == 0) && v.dirty

unfoldable pub free_cache : Option ℕ → Info → Info
unfolding find_cache change flush_cache
free_cache none i = i
free_cache (some cluster) i =
    let j = record i { cache_objects = change cluster release i.cache_objects } in
    if is_unused (find_cache cluster j.cache_objects) then flush_cache cluster j else j

-- The loop of `Flush` over the objects.
unfoldable pub flush_each : List Cache → Info → Info
unfolding flush_cache
flush_each [] i = i
flush_each (v ∷ vs) i = flush_each vs (flush_cache v.cluster i)

unfoldable pub flush : Info → Info
unfolding flush_each
flush i = flush_each i.cache_objects i

-- The writes of `SetCluster`: the whole table, `copies` times from the copy `fat_id` on.
unfoldable pub write_fats : (ℕ → Bool) → ℕ → ℕ → Bpb → Bytes → Disk → Disk
unfolding write_sectors
write_fats accepts zero fat_id b fat disk = disk
write_fats accepts (suc copies) fat_id b fat disk = write_fats accepts copies (fat_id + 1) b fat (
    write_sectors accepts b.sectors_per_fat 0
      (b.hidden_sectors + b.reserved_sectors + b.sectors_per_fat * fat_id) fat disk)

-- `SetCluster`
unfoldable pub store_cluster : ℕ → ℕ → Info → Info
unfolding write_fats
store_cluster cluster next i =
    let fat = set_cluster i.fat cluster next in
    record i { fat = fat; disk = write_fats i.accepts i.bpb.fats_count 0 i.bpb fat i.disk }

abbrev pub take_empty : ℕ → Option ℕ → Info → Option (ℕ × Info)
take_empty parent none i = none
take_empty parent (some index) i =
    some
      (index, store_cluster index 0xff8 (if ltb 0 parent then store_cluster parent index i else i))

-- `AddCluster`; `none` is `Status::Undefined`.
unfoldable pub extend_chain : ℕ → Info → Option (ℕ × Info)
unfolding store_cluster total_fat_entries
extend_chain parent i =
    if ltb 0 parent && not (get_next_cluster i.type i.fat parent == 0)
    then none
    else take_empty parent (find_empty i.fat (total_fat_entries i.bpb) 0) i
