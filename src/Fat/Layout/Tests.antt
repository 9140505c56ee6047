-- ===== src/Fat/Layout/Tests.antt =====
-- A floppy disk's layout.
use baby_osv.Base.{◌≡◌, refl, false, true}
use baby_osv.Fat.Layout.{
  Bpb, get_root_sector, get_first_data_sector, get_sector_to_read, total_fat_entries,
}

abbrev floppy : Bpb
floppy = record {
  bytes_per_sector = 512;
  sectors_per_cluster = 1;
  reserved_sectors = 1;
  fats_count = 2;
  root_entries_count = 224;
  sectors_per_fat = 9;
  hidden_sectors = 0;
}

layout :
    (get_root_sector floppy ≡ 19)
    × (get_first_data_sector floppy ≡ 33)
    × (get_sector_to_read floppy 2 false ≡ 33)
    × (get_sector_to_read floppy 0 true ≡ 19)
    × (total_fat_entries floppy ≡ 3072)
unfolding get_root_sector get_first_data_sector get_sector_to_read total_fat_entries
layout = (refl, refl, refl, refl, refl)

-- Four sectors for each cluster.
abbrev disk : Bpb
disk = record floppy { sectors_per_cluster = 4 }
