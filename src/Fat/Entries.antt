-- ===== src/Fat/Entries.antt =====
-- New entries in directories, in kernel/FS/FAT.cpp: `ExtendDirectoryIfNoFreeEntries` to `FileCreate`.
-- `fuel` bounds the rounds of each loop.
pub mod Full
use baby_osv.Base.{
  ℕ, zero, suc, ◌+◌, ◌-◌, ◌*◌, ◌/◌, ◌%◌, Bool, true, false, ◌&&◌, not, Option, none, some, List, [],
  ◌∷◌, ◌++◌, ltb, leb, ◌==◌, if◌then◌else◌, get_or,
}
use baby_osv.Fat.Table.{FatType, Bytes, get_next_cluster}
use baby_osv.Fat.Name.{dot, lfn_to_f83}
use baby_osv.Fat.Layout.{get_sector_to_read}
use baby_osv.Fat.Volume.{Cache, Info, change, get_cache, free_cache, write_sectors, extend_chain}
use baby_osv.Fat.Directory.{
  Directory, DirEntry, Found, directory_read_internal, directory_rewind, directory_open_root,
}

-- How a loop over the entries ends: on an entry that is not valid, or at the end.
abbrev pub Place : Type 0
Place = Bool × Info × Directory

abbrev pub if_free : Bool → Info → Directory → (Info → Directory → Option Place) → Option Place
if_free true i dir again = again i dir
if_free false i dir again = some (true, i, dir)

abbrev pub place_at : Found → Info → Directory → (Info → Directory → Option Place) → Option Place
place_at none i dir again = some (false, i, dir)
place_at (some (e, j, d)) i dir again = if_free e.is_valid j d again

-- The loops that read until an entry is not valid.
unfoldable pub seek : ℕ → Info → Directory → Option Place
unfolding directory_read_internal
seek zero i dir = none
seek (suc fuel) i dir = place_at (directory_read_internal i dir) i dir (λ j d. seek fuel j d)

-- The loop that looks for the last cluster.
unfoldable pub last_cluster : ℕ → FatType → Bytes → ℕ → Option ℕ
unfolding get_next_cluster
last_cluster zero type fat cluster = none
last_cluster (suc fuel) type fat cluster =
    let next = get_next_cluster type fat cluster in
    elim (next == 0xff8) [ true ↦ some cluster | false ↦ last_cluster fuel type fat next ]

-- A write through the pointer to a cluster's object.
unfoldable pub through : ℕ → (Cache → Cache) → Info → Info
unfolding change
through cluster f i = record i { cache_objects = change cluster f i.cache_objects }

abbrev pub blank : Cache → Cache
blank v = record v { buffer = λ o. if ltb o v.buffer_size then 0 else v.buffer o; dirty = true }

-- The new cluster becomes the directory's object, cleared.
abbrev pub enter_new : ℕ → Info → Directory → Place
enter_new next i dir = (
  true,
  through next blank (get_cache next (free_cache dir.cache i)),
  record dir { cache = some next },
)

-- Where `AddCluster` fails, `nextCluster` is still `CLUSTER_LAST`.
abbrev pub grow_behind : Option ℕ → Info → Directory → Option Place
grow_behind none i dir = none
grow_behind (some cluster) i dir = elim (extend_chain cluster i) [
  | none ↦ some (enter_new 0xff8 i dir)
  | some (next, j) ↦ some (enter_new next j dir)
]

abbrev pub grow_if_full : ℕ → Option Place → Option Place
grow_if_full fuel none = none
grow_if_full fuel (some (true, i, dir)) = some (true, i, dir)
grow_if_full fuel (some (false, i, dir)) =
    if dir.root_cluster == 0
    then some (false, i, dir)
    else grow_behind (last_cluster fuel i.type i.fat dir.root_cluster) i dir

-- `ExtendDirectoryIfNoFreeEntries`; `false` is `Status::EndOfFile`.
unfoldable pub extend_directory : ℕ → Info → Directory → Option Place
unfolding seek last_cluster directory_rewind extend_chain get_cache free_cache through
extend_directory fuel i dir =
    let (j, d) = directory_rewind i dir in grow_if_full fuel (seek fuel j d)

-- `memcpy` of an entry into the buffer at the directory's place.
abbrev pub put_entry : (ℕ → ℕ) → ℕ → Cache → Cache
put_entry template o v = record v {
  buffer = λ k. if leb o k && ltb k (o + 32) then template (k - o) else v.buffer k;
  dirty = true;
}

abbrev pub store_at : (ℕ → ℕ) → Option ℕ → Info → Directory → Place
store_at template none i dir = (true, i, dir)
store_at template (some c) i dir = (true, through c (put_entry template dir.buffer_offset) i, dir)

abbrev pub store_place : (ℕ → ℕ) → Option Place → Option Place
store_place template none = none
store_place template (some (found, i, dir)) = some (store_at template dir.cache i dir)

abbrev pub add_if_room : ℕ → (ℕ → ℕ) → Option Place → Option Place
add_if_room fuel template none = none
add_if_room fuel template (some (false, i, dir)) = some (false, i, dir)
add_if_room fuel template (some (true, i, dir)) =
    let (j, d) = directory_rewind i dir in store_place template (seek fuel j d)

-- `DirectoryAddEntry`; `false` is `Status::Undefined`. The second search's end is not looked at.
unfoldable pub directory_add_entry : ℕ → (ℕ → ℕ) → Info → Directory → Option Place
unfolding extend_directory seek directory_rewind through
directory_add_entry fuel template i dir = add_if_room fuel template (extend_directory fuel i dir)

-- The entry that `FileCreate` and `DirectoryCreate` fill in, of 1 January of year 22.
abbrev pub new_entry : List ℕ → ℕ → ℕ → ℕ → ℕ
new_entry name attributes cluster o =
    get_or
      (lfn_to_f83 name
        ++ (attributes
            ∷ 0x4d
            ∷ 0x54
            ∷ 0
            ∷ 0
            ∷ 0x96
            ∷ 0x08
            ∷ 0x96
            ∷ 0x08
            ∷ 0
            ∷ 0
            ∷ 0
            ∷ 0
            ∷ 0x96
            ∷ 0x08
            ∷ (cluster % 256)
            ∷ (cluster / 256 % 256)
            ∷ 0
            ∷ 0
            ∷ 0
            ∷ 0
            ∷ []))
      o 0

-- `FileCreate` returns `Success` whatever `DirectoryAddEntry` returns.
abbrev pub always : Option Place → Option (Info × Directory)
always none = none
always (some (added, i, dir)) = some (i, dir)

unfoldable pub file_create : ℕ → List ℕ → Info → Directory → Option (Info × Directory)
unfolding directory_add_entry lfn_to_f83
file_create fuel name i dir = always (directory_add_entry fuel (new_entry name 0 0) i dir)
