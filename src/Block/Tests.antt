-- ===== src/Block/Tests.antt =====
-- A disk of eight sectors, kept as a function of the sector and the offset.
use baby_osv.Base.{ℕ, ◌≡◌, ◌<◌, ◌≤◌, refl, [], ◌∷◌, map, arith, update, update_self, update_ne, sym}
use baby_osv.Block.{
  hard_drive, raw, primary, BlockDeviceDriver, BlockDevice, BlockPartition, Blocks, partition_read,
  partition_write, register_device, new_device,
}
use baby_osv.Block.Disk.{Disk}
use baby_osv.Block.Sectors.{partition_read-partition_write}
use baby_osv.Block.Scanning.{extent, register_device_lem}

abbrev Store : Type 0
Store = ℕ → ℕ → ℕ

abbrev memory_drv : BlockDeviceDriver Store
memory_drv = record {
  size = λ p w. (8, w);
  block_size = λ p w. (512, w);
  lock = λ p w. (0, w);
  unlock = λ p w. (0, w);
  read = λ p lba buffer w. (0, w lba, w);
  write = λ p lba buffer w. (0, update w lba buffer);
}

abbrev memory_disk : Disk memory_drv 0
memory_disk = record {
  total = 8;
  sector = λ w. w;
  sizes = λ w. refl;
  size_keeps = λ w. refl;
  reads = λ lba buffer w l. refl;
  read_keeps = λ lba buffer w. refl;
  writes = λ lba buffer w l. update_self w lba buffer;
  write_keeps = λ lba other buffer w n. update_ne w lba other buffer (λ e. n (sym e));
}

-- The first entry is a partition of three sectors from sector 2 on. The second has the type 0, and the third,
-- of two sectors from sector 5 on, is the one to start from; the fourth is longer than the device.
abbrev boot_record : ℕ → ℕ
boot_record =
    update
      (update
        (update
          (update
            (update
              (update (update (update (update (update (λ o. 0) 450 6) 454 2) 458 3) 470 1) 474 1)
              478 0x80)
            482 6)
          486 5)
        490 2)
      498 6

abbrev contents : Store
contents = update (λ s o. 0) 0 (update boot_record 506 9)

abbrev no_blocks : Blocks Store
no_blocks = record {
  devices = [];
  partitions = [];
  devices_types_count = λ n. 0;
  partition_count = 0;
  world = contents;
}

registers :
    map extent (register_device (λ o. 0) hard_drive memory_drv 0 no_blocks).partitions
    ≡ (raw, 0, 8) ∷ (primary, 2, 3) ∷ (primary, 5, 2) ∷ []
unfolding register_device update
registers = refl

abbrev disk : BlockDevice Store
disk = new_device hard_drive memory_drv 0 0

abbrev part : ℕ → ℕ → BlockPartition Store
part first count = record {
  type = primary;
  device = disk;
  device_lba_offset = first;
  lba_count = count;
  name = [];
}

register_device_lem_example :
    ((register_device (λ o. 0) hard_drive memory_drv 0 no_blocks).devices ≡ disk ∷ [])
    × (map extent (register_device (λ o. 0) hard_drive memory_drv 0 no_blocks).partitions
        ≡ (raw, 0, 8) ∷ (primary, 2, 3) ∷ (primary, 5, 2) ∷ [])
unfolding update
register_device_lem_example =
    register_device_lem (λ o. 0) hard_drive memory_drv 0 no_blocks memory_disk (omega arith)

partition_read-partition_write_example :
    ((1 < 3)
      → (partition_read (part 2 3) 1 (λ o. 9) (partition_write (part 5 2) 0 (λ o. 7) contents).1).1
        ≡ (partition_read (part 2 3) 1 (λ o. 9) contents).1)
    × ((3 ≤ 1)
        → (partition_read (part 2 3) 1 (λ o. 9) contents ≡ (1, (λ o. 9), contents))
          × (partition_write (part 2 3) 1 (λ o. 7) contents ≡ (1, contents)))
partition_read-partition_write_example =
    partition_read-partition_write disk memory_disk (part 2 3) (part 5 2) 1 0 (λ o. 7) (λ o. 9)
      contents (record { ends_within = omega arith; sizes_small = omega arith })
      (record { ends_within = omega arith; sizes_small = omega arith }) (omega arith)
