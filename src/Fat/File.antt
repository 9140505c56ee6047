-- ===== src/Fat/File.antt =====
-- Files in kernel/FS/FAT.cpp: `FileOpen` to `FileGetPointer`. `FileOpen` leaves `parentNeedsUpdate` as the
-- memory happens to be.
pub mod Lost
pub mod Calm
mod Tests
use baby_osv.Base.{
  ℕ, zero, suc, ◌+◌, ◌-◌, ◌*◌, ◌/◌, ◌%◌, Bool, true, false, ◌&&◌, ◌||◌, not, Option, none, some,
  List, [], ◌∷◌, ◌++◌, ltb, leb, ◌==◌, if◌then◌else◌, update, add32, sub32,
}
use baby_osv.Base.Outcome.{Outcome, ok, fault}
use baby_osv.Fat.Table.{get_next_cluster}
use baby_osv.Fat.Volume.{Cache, Info, find_cache, change, get_cache, free_cache, extend_chain}
use baby_osv.Fat.Directory.{
  Directory, buffer_of, buffer_size_of, buffer_in, size_in, current, cluster_at, size_at,
}
use baby_osv.Fat.Entries.{through}

pub record File : Type 0 where
  pub root_cluster : ℕ
  pub parent_cluster : ℕ
  pub parent_offset : ℕ
  pub parent_needs_update : Bool
  pub total_offset : ℕ
  pub total_size : ℕ
  pub cache : Option ℕ

-- `FileOpen`, where the directory stands on an entry.
unfoldable pub file_open : Bool → Info → Directory → Outcome File
unfolding buffer_of
file_open junk i dir = elim dir.cache [
  | none ↦ fault
  | some c ↦ ok (record {
    root_cluster = cluster_at (current (some c) i dir) 0;
    parent_cluster = c;
    parent_offset = dir.buffer_offset;
    parent_needs_update = junk;
    total_offset = 0;
    total_size = size_at (current (some c) i dir) 0;
    cache = none;
  })
]

unfoldable pub file_close : Info → File → Info
unfolding free_cache
file_close i f = free_cache f.cache i

-- The new first cluster of an empty file, cleared; the object is not marked dirty.
abbrev pub cleared : Cache → Cache
cleared v = record v { buffer = λ o. if ltb o v.buffer_size then 0 else v.buffer o }

abbrev pub first_cluster : Option (ℕ × Info) → File → Option (Info × File)
first_cluster none f = none
first_cluster (some (next, i)) f = some (
  through next cleared (get_cache next i),
  record f { root_cluster = next; cache = some next; parent_needs_update = true },
)

abbrev pub go_to : ℕ → ℕ → Info → File → Info × File
go_to c next i f = (get_cache next (free_cache (some c) i), record f { cache = some next })

abbrev pub go_behind : ℕ → Option (ℕ × Info) → File → Option (Info × File)
go_behind c none f = none
go_behind c (some (next, i)) f = some (go_to c next i f)

-- The first part of `FilePutByte`: the object that the byte goes to; `none` is `Status::Undefined`.
abbrev pub object_for : Option ℕ → Info → File → Option (Info × File)
object_for none i f =
    if f.root_cluster == 0
    then first_cluster (extend_chain 0 i) f
    else some (get_cache f.root_cluster i, record f { cache = some f.root_cluster })
object_for (some c) i f =
    if ltb 0 f.total_offset && (f.total_offset % buffer_size_of i c == 0)
    then (let next = get_next_cluster i.type i.fat c in
        if next == 0 then go_behind c (extend_chain c i) f else some (go_to c next i f))
    else some (i, f)

-- The write into the object's buffer.
abbrev pub put : ℕ → ℕ → Cache → Cache
put offset byte v = record v { buffer = update v.buffer (offset % v.buffer_size) byte }

abbrev pub advance : File → File
advance f =
    let offset = add32 f.total_offset 1 in
    if ltb f.total_size offset
    then record f { total_offset = offset; parent_needs_update = true; total_size = offset }
    else record f { total_offset = offset }

-- The file's cluster, if the entry has none, and its size go into the parent's entry.
abbrev pub put_size : File → Cache → Cache
put_size f v =
    let o = f.parent_offset in
    let cluster = if cluster_at v.buffer o == 0 then f.root_cluster else cluster_at v.buffer o in
    record v {
      buffer = λ k.
          if k == o + 26
          then cluster % 256
          else if k == o + 27
          then cluster / 256 % 256
          else if k == o + 28
          then f.total_size % 256
          else if k == o + 29
          then f.total_size / 256 % 256
          else if k == o + 30
          then f.total_size / 65536 % 256
          else if k == o + 31
          then f.total_size / 16777216 % 256
          else v.buffer k;
      dirty = true;
    }

unfoldable pub update_parent : Info → File → Info
unfolding through get_cache free_cache
update_parent i f =
    if f.parent_needs_update
    then free_cache (some f.parent_cluster)
        (through f.parent_cluster (put_size f) (get_cache f.parent_cluster i))
    else i

abbrev pub put_in : ℕ → Option ℕ → Info → File → Info × File
put_in byte none i f = (i, f)
put_in byte (some c) i f =
    let g = advance f in (update_parent (through c (put f.total_offset byte) i) g, g)

abbrev pub put_at : ℕ → Option (Info × File) → Option (Info × File)
put_at byte none = none
put_at byte (some (i, f)) = some (put_in byte f.cache i f)

-- `FilePutByte`
unfoldable pub file_put_byte : ℕ → Info → File → Option (Info × File)
unfolding through update_parent extend_chain get_cache free_cache get_next_cluster buffer_size_of
file_put_byte byte i f = put_at byte (object_for f.cache i f)

-- The loop of `FileWrite`; the results are the status, and the state with `writeCount`.
unfoldable pub file_write : List ℕ → ℕ → Info → File → Bool × ℕ × Info × File
unfolding file_put_byte
file_write [] count i f = (true, count, i, f)
file_write (b ∷ bs) count i f = elim (file_put_byte b i f) [
  | none ↦ (false, count, i, f)
  | some (j, g) ↦ file_write bs (count + 1) j g
]
