-- ===== src/Fat/Format.antt =====
-- kernel/FS/FAT.cpp, `Probe` and `FormatFAT`, on a partition of the block devices.
pub mod Formatted
mod Tests
use baby_osv.Base.{ℕ, zero, suc, ◌+◌, ◌-◌, Bool, ◌&&◌, not, ◌==◌, if◌then◌else◌, update, add32}
use baby_osv.Block.{BlockPartition, partition_read, partition_write}
use baby_osv.Vfs.{Status, success, undefined}
use baby_osv.Fat.Layout.{Bpb}

module _ {W : Type 0} where
  -- `stack` is what the stack holds where the sector is read to.
  unfoldable pub probe : (ℕ → ℕ) → BlockPartition W → W → Status × W
  unfolding partition_read
  probe stack part w =
      let (failed, buffer, w') = partition_read part 0 stack w in
      if not (failed == 0)
      then (undefined, w')
      else if (buffer 0 == 0xeb) && (buffer 2 == 0x90)
      then (success, w')
      else (undefined, w')

-- `tmp_fat`, with the reserved entries and without.
unfoldable pub first_sector : ℕ → ℕ
unfolding update
first_sector = update (update (update (λ o. 0) 0 0xf0) 1 0xff) 2 0xff

abbrev pub empty_sector : ℕ → ℕ
empty_sector o = 0

abbrev pub fat_start : Bpb → ℕ
fat_start bpb = add32 bpb.reserved_sectors bpb.hidden_sectors

module _ {W : Type 0} where
  -- The loop, for `count` more sectors.
  unfoldable pub clear_sectors : ℕ → ℕ → BlockPartition W → W → W
  unfolding partition_write
  clear_sectors zero sector part w = w
  clear_sectors (suc count) sector part w =
      clear_sectors count (add32 sector 1) part (partition_write part sector empty_sector w).1

  unfoldable pub format_fat : BlockPartition W → Bpb → W → Status × W
  unfolding clear_sectors partition_write first_sector
  format_fat part bpb w = (
    success,
    clear_sectors (bpb.sectors_per_fat - 1) (add32 (fat_start bpb) 1) part
        (partition_write part (fat_start bpb) first_sector w).1,
  )
