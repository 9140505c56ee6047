-- ===== src/Fat/Directory.antt =====
-- Directories in kernel/FS/FAT.cpp: `DirectoryReadInternal` to `FileOpen`. A `Directory*` or `File*` is its
-- structure, and the pointer to the mounted volume, which every call checks first, is not `nullptr`.
pub mod Reading
use Prim.Native.Nat.{bit_and}
use baby_osv.Base.{
  ℕ, zero, suc, ◌+◌, ◌-◌, ◌*◌, ◌/◌, ◌%◌, Bool, true, false, ◌&&◌, ◌||◌, not, Option, none, some,
  List, [], ◌∷◌, ◌++◌, map, ltb, leb, ◌==◌, if◌then◌else◌,
}
use baby_osv.Base.Outcome.{Outcome, ok, fault}
use baby_osv.Libc.{tolower}
use baby_osv.Fat.Table.{get_next_cluster}
use baby_osv.Fat.Name.{space, dot, until_space, lfn_to_f83}
use baby_osv.Fat.Layout.{get_sector_to_read}
use baby_osv.Fat.Volume.{
  Cache, Info, find_cache, change, get_cache, free_cache, write_sectors, extend_chain,
}

pub record Directory : Type 0 where
  pub root_cluster : ℕ
  pub buffer_offset : ℕ
  pub cache : Option ℕ

-- `FS::DirEntry`; `isSymlink` is always 0.
pub record DirEntry : Type 0 where
  pub is_directory : Bool
  pub is_valid : Bool
  pub size : ℕ
  pub name : List ℕ

-- What a pointer to a cache object leads to; objects are never removed from the list.
abbrev pub buffer_in : Option Cache → ℕ → ℕ
buffer_in none o = 0
buffer_in (some v) o = v.buffer o

abbrev pub size_in : Option Cache → ℕ
size_in none = 0
size_in (some v) = v.buffer_size

unfoldable pub buffer_of : Info → ℕ → ℕ → ℕ
unfolding find_cache
buffer_of i cluster = buffer_in (find_cache cluster i.cache_objects)

unfoldable pub buffer_size_of : Info → ℕ → ℕ
unfolding find_cache
buffer_size_of i cluster = size_in (find_cache cluster i.cache_objects)

abbrev pub bytes_at : (ℕ → ℕ) → ℕ → ℕ → List ℕ
bytes_at buffer o zero = []
bytes_at buffer o (suc n) = buffer o ∷ bytes_at buffer (o + 1) n

-- The fields of a `FAT16_DirEntry`, by their offsets.
abbrev pub attributes_at : (ℕ → ℕ) → ℕ → ℕ
attributes_at buffer o = buffer (o + 11)

abbrev pub cluster_at : (ℕ → ℕ) → ℕ → ℕ
cluster_at buffer o = buffer (o + 26) + 256 * buffer (o + 27)

abbrev pub size_at : (ℕ → ℕ) → ℕ → ℕ
size_at buffer o =
    buffer (o + 28) + 256 * buffer (o + 29) + 65536 * buffer (o + 30) + 16777216 * buffer (o + 31)

-- `Attribute::Directory`
abbrev pub has_directory_bit : ℕ → Bool
has_directory_bit attributes = not (bit_and attributes 16 == 0)

abbrev pub is_free_or_removed : ℕ → Bool
is_free_or_removed first = (first == 0) || (first == space) || (first == 0xe5)

abbrev pub lower_name : List ℕ → List ℕ → List ℕ
lower_name base ext = map tolower (until_space base) ++ (elim ext [
  | [] ↦ []
  | c ∷ cs ↦ if c == space then [] else dot ∷ map tolower (until_space (c ∷ cs))
])

unfoldable pub entry_at : (ℕ → ℕ) → ℕ → DirEntry
unfolding tolower
entry_at buffer o = record {
  is_directory = has_directory_bit (attributes_at buffer o);
  is_valid = not (is_free_or_removed (buffer o));
  size = size_at buffer o;
  name = lower_name (bytes_at buffer o 8) (bytes_at buffer (o + 8) 3);
}

unfoldable pub directory_open_root : Directory
directory_open_root = record { root_cluster = 0; buffer_offset = 0; cache = none }

unfoldable pub directory_close : Info → Directory → Info
unfolding free_cache
directory_close i dir = free_cache dir.cache i

-- The object that the pointer moves to when the buffer's end is reached; `none` is `Status::EndOfFile`.
abbrev pub next_object : ℕ → Info → Directory → Option (Info × Directory)
next_object c i dir =
    let next = get_next_cluster i.type i.fat c in
    if (dir.root_cluster == 0) || (next == 0)
    then none
    else some (
      get_cache next (free_cache (some c) i),
      record dir { cache = some next; buffer_offset = 0 },
    )

-- The first part of `DirectoryReadInternal`, which finds the next entry.
abbrev pub move_from : Option ℕ → Info → Directory → Option (Info × Directory)
move_from none i dir =
    some (get_cache dir.root_cluster i, record dir { cache = some dir.root_cluster })
move_from (some c) i dir =
    if leb (buffer_size_of i c) (dir.buffer_offset + 32)
    then next_object c i dir
    else some (i, record dir { buffer_offset = dir.buffer_offset + 32 })

-- The entry that a directory stands on.
abbrev pub current : Option ℕ → Info → Directory → ℕ → ℕ
current none i dir o = 0
current (some c) i dir o = buffer_of i c (dir.buffer_offset + o)

abbrev pub read_at : Option (Info × Directory) → Option (DirEntry × Info × Directory)
read_at none = none
read_at (some (i, dir)) = some (entry_at (current dir.cache i dir) 0, i, dir)

-- `DirectoryReadInternal`; `none` is `Status::EndOfFile`, which leaves everything as it was.
unfoldable pub directory_read_internal : Info → Directory → Option (DirEntry × Info × Directory)
unfolding buffer_size_of buffer_of get_cache free_cache get_next_cluster entry_at
directory_read_internal i dir = read_at (move_from dir.cache i dir)

-- A round of `DirectoryRead`'s loop: a valid entry or the end is the result, else `again`.
abbrev pub Found : Type 0
Found = Option (DirEntry × Info × Directory)

abbrev pub if_valid :
    Bool → DirEntry × Info × Directory → (Info → Directory → Option Found) → Option Found
if_valid true r again = some (some r)
if_valid false (e, i, dir) again = again i dir

abbrev pub settle : Found → (Info → Directory → Option Found) → Option Found
settle none again = some none
settle (some (e, i, dir)) again = if_valid e.is_valid (e, i, dir) again

-- `DirectoryRead`, for at most `fuel` rounds of its loop.
unfoldable pub directory_read : ℕ → Info → Directory → Option Found
unfolding directory_read_internal
directory_read zero i dir = none
directory_read (suc fuel) i dir =
    settle (directory_read_internal i dir) (λ j d. directory_read fuel j d)

unfoldable pub directory_rewind : Info → Directory → Info × Directory
unfolding free_cache
directory_rewind i dir = (free_cache dir.cache i, record dir { cache = none; buffer_offset = 0 })

-- `DirectoryFollow`; `none`: the entry is no directory. The code reads the entry without a test whether
-- the directory stands on one.
unfoldable pub directory_follow : Info → Directory → Outcome (Option (Info × Directory))
unfolding free_cache
directory_follow i dir = elim dir.cache [
  | none ↦ fault
  | some c ↦
      let entry = current dir.cache i dir in
      ok (
        if has_directory_bit (attributes_at entry 0)
        then some (
          free_cache dir.cache i,
          record { root_cluster = cluster_at entry 0; buffer_offset = 0; cache = none },
        )
        else none)
]
