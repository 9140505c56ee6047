-- ===== src/Fat/Format/Tests.antt =====
-- A partition of four sectors on a disk of eight, kept as a function.
use baby_osv.Base.{
  ℕ, ◌≡◌, ◌≢◌, ◌<◌, ◌≤◌, ◌+◌, suc, refl, sym, arith, update, update_self, update_ne, [],
}
use baby_osv.Block.{BlockDeviceDriver, BlockDevice, BlockPartition, primary, hard_drive}
use baby_osv.Block.Disk.{Disk}
use baby_osv.Vfs.{undefined}
use baby_osv.Fat.Layout.{Bpb}
use baby_osv.Fat.Format.{probe, format_fat}
use baby_osv.Fat.Format.Formatted.{format_fat_lem}

abbrev Store : Type 0
Store = ℕ → ℕ → ℕ

abbrev store_drv : BlockDeviceDriver Store
store_drv = record {
  size = λ p w. (8, w);
  block_size = λ p w. (512, w);
  lock = λ p w. (0, w);
  unlock = λ p w. (0, w);
  read = λ p lba buffer w. (0, w lba, w);
  write = λ p lba buffer w. (0, update w lba buffer);
}

abbrev store_disk : Disk store_drv 0
store_disk = record {
  total = 8;
  sector = λ w. w;
  sizes = λ w. refl;
  size_keeps = λ w. refl;
  reads = λ lba buffer w l. refl;
  read_keeps = λ lba buffer w. refl;
  writes = λ lba buffer w l. update_self w lba buffer;
  write_keeps = λ lba other buffer w n. update_ne w lba other buffer (λ e. n (sym e));
}

abbrev store_device : BlockDevice Store
store_device = record { type = hard_drive; drv = store_drv; drv_priv = 0; name = [] }

abbrev four : BlockPartition Store
four = record {
  type = primary;
  device = store_device;
  device_lba_offset = 2;
  lba_count = 4;
  name = [];
}

abbrev table : Bpb
table = record {
  bytes_per_sector = 512;
  sectors_per_cluster = 1;
  reserved_sectors = 1;
  fats_count = 1;
  root_entries_count = 16;
  sectors_per_fat = 2;
  hidden_sectors = 0;
}

abbrev dirty : Store
dirty s o = 9

-- Nothing of a boot sector is there.
not_probed : (probe (λ o. 0) four dirty).0 ≡ undefined
unfolding probe
not_probed = refl

format_fat_lem_example :
    let after = (format_fat four table dirty).1 in
    ((after 3 0 ≡ 0xf0)
      × (after 3 1 ≡ 0xff)
      × (after 3 2 ≡ 0xff)
      × ((o : ℕ) → 3 ≤ o → after 3 o ≡ 0))
    × ((k o : ℕ) → suc k < 2 → after (3 + suc k) o ≡ 0)
    × ((s : ℕ) → ((k : ℕ) → k < 2 → s ≢ 3 + k) → after s ≡ dirty s)
format_fat_lem_example =
    format_fat_lem store_device store_disk four table dirty
      (record { ends_within = omega arith; sizes_small = omega arith }) (omega arith) (omega arith)
      (omega arith)
