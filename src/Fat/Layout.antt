-- ===== src/Fat/Layout.antt =====
-- Where things are on a FAT volume: `GetRootSector`, `GetFirstDataSector`, `GetSectorToRead` and the count
-- of entries in `AddCluster`, in kernel/FS/FAT.cpp.
pub mod Sectors
mod Tests
use baby_osv.Base.{ℕ, ◌+◌, ◌*◌, ◌/◌, ◌%◌, Bool, true, false, if◌then◌else◌, u16_mod, sub32}

-- The fields of `BPB` that the code reads.
pub record Bpb : Type 0 where
  pub bytes_per_sector : ℕ
  pub sectors_per_cluster : ℕ
  pub reserved_sectors : ℕ
  pub fats_count : ℕ
  pub root_entries_count : ℕ
  pub sectors_per_fat : ℕ
  pub hidden_sectors : ℕ

-- The results are `u16`.
unfoldable pub get_root_sector : Bpb → ℕ
get_root_sector b =
    (b.hidden_sectors + b.reserved_sectors + b.sectors_per_fat * b.fats_count) % u16_mod

-- `sizeof(FAT16_DirEntry)` is 32.
abbrev pub root_sectors : Bpb → ℕ
root_sectors b = b.root_entries_count * 32 / b.bytes_per_sector

unfoldable pub get_first_data_sector : Bpb → ℕ
unfolding get_root_sector
get_first_data_sector b = (get_root_sector b + root_sectors b) % u16_mod

unfoldable pub get_sector_to_read : Bpb → ℕ → Bool → ℕ
unfolding get_root_sector
get_sector_to_read b cluster is_root =
    let sector = (get_root_sector b + cluster * b.sectors_per_cluster) % u16_mod in
    if is_root then sector else (sector + sub32 (root_sectors b) 2) % u16_mod

-- `totalFatEntries`
unfoldable pub total_fat_entries : Bpb → ℕ
total_fat_entries b = b.sectors_per_fat * b.bytes_per_sector * 8 / 12
