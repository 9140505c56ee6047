-- ===== src/Fat/Create.antt =====
-- `DirectoryCreate` in kernel/FS/FAT.cpp. `unset` is what the stack holds where the code sets nothing: the
-- bytes 12 to 25 of the new entry, and the new cluster where `AddCluster` fails.
use baby_osv.Base.{ℕ, false, ◌&&◌, Option, none, some, List, [], ◌∷◌, leb, ltb, if◌then◌else◌}
use baby_osv.Fat.Name.{dot}
use baby_osv.Fat.Layout.{get_sector_to_read}
use baby_osv.Fat.Volume.{Info, extend_chain, write_sectors}
use baby_osv.Fat.Directory.{Directory}
use baby_osv.Fat.Entries.{always, new_entry, directory_add_entry}

infixl 5 ◌>>=◌
abbrev ◌>>=◌ : {A : Type 0} {B : Type 0} → Option A → (A → Option B) → Option B
none >>= f = none
some a >>= f = f a

-- The cluster that `AddCluster` gives.
abbrev pub or_unset : ℕ → Info → Option (ℕ × Info) → ℕ × Info
or_unset unset i none = (unset, i)
or_unset unset i (some (cluster, j)) = (cluster, j)

-- The cluster's sectors are cleared on the disk.
unfoldable pub clear_cluster : ℕ → Info → Info
unfolding write_sectors get_sector_to_read
clear_cluster cluster i = record i {
  disk =
      write_sectors i.accepts i.bpb.sectors_per_cluster 0 (get_sector_to_read i.bpb cluster false)
        (λ o. 0) i.disk;
}

abbrev pub parent_entry : (ℕ → ℕ) → List ℕ → ℕ → ℕ → ℕ
parent_entry unset name cluster o =
    if leb 12 o && ltb o 26 then unset o else new_entry name 0x10 cluster o

-- The entries `.` and `..` of the new directory.
abbrev pub add_dots : ℕ → ℕ → ℕ → Info → Option Info
add_dots fuel cluster parent i = do
  (j, d) ← always (
      directory_add_entry fuel (new_entry (dot ∷ []) 0x10 cluster) i
        (record { root_cluster = cluster; buffer_offset = 0; cache = none }))
  (k, e) ← always (directory_add_entry fuel (new_entry (dot ∷ dot ∷ []) 0x10 parent) j d)
  some k

-- `DirectoryCreate`, for at most `fuel` rounds of each loop; it returns `Success` in every case.
unfoldable pub directory_create :
    ℕ → ℕ → (ℕ → ℕ) → List ℕ → Info → Directory → Option (Info × Directory)
unfolding extend_chain clear_cluster directory_add_entry
directory_create fuel unset_cluster unset name i dir = do
  let (cluster, j) = or_unset unset_cluster i (extend_chain 0 i)
  (k, d) ←
      always
        (directory_add_entry fuel (parent_entry unset name cluster) (clear_cluster cluster j) dir)
  l ← add_dots fuel cluster d.root_cluster k
  some (l, d)
