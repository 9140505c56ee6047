-- ===== src/Block/Sectors.antt =====
-- Partitions of one device.
use baby_osv.Base.{
  ℕ, ◌+◌, ◌≤◌, ◌<◌, ◌≡◌, ◌≢◌, ◌∙◌, refl, sym, ap, true, false, ◌==◌, leb, if◌then◌else◌, arith,
  u32_mod, add32, mod_small, inl, inr, Bool-cases,
}
use baby_osv.Block.{BlockDevice, BlockPartition, partition_read, partition_write}
use baby_osv.Block.Disk.{Disk}

-- A partition of the device that ends within it.
pub record Within {W : Type 0} (total : ℕ) (part : BlockPartition W) : Type 0 where
  pub ends_within : part.device_lba_offset + part.lba_count ≤ total
  pub sizes_small : total ≤ u32_mod

inside : (count lba : ℕ) → lba < count → leb count lba ≡ false
inside count lba l = ground arith

outside : (count lba : ℕ) → count ≤ lba → leb count lba ≡ true
outside count lba l = ground arith

same : (a b : ℕ) → (a == b) ≡ true → a ≡ b
same a b h = ground arith

other_sector : (a b : ℕ) → (a == b) ≡ false → a ≢ b
other_sector a b h = ground arith

module _ {W : Type 0} (dev : BlockDevice W) (d : Disk dev.drv dev.drv_priv) where
  -- A partition of the device.
  abbrev pub part_of : BlockPartition W → BlockPartition W
  part_of part = record part { device = dev }

  sector_of :
      (part : BlockPartition W) (lba : ℕ)
      → Within d.total part
      → lba < part.lba_count
      → add32 part.device_lba_offset lba ≡ part.device_lba_offset + lba
  sector_of part lba within l =
      mod_small (part.device_lba_offset + lba) u32_mod
        (omega (arith, within.ends_within, within.sizes_small, l))

  pub read-Within :
      (part : BlockPartition W) (lba : ℕ) (stack : ℕ → ℕ) (w : W)
      → Within d.total part
      → lba < part.lba_count
      → partition_read (part_of part) lba stack w
        ≡ dev.drv.read dev.drv_priv (part.device_lba_offset + lba) stack w
  unfolding partition_read
  read-Within part lba stack w within l =
      rw (inside part.lba_count lba l, sector_of part lba within l, partition_read) refl

  pub write-Within :
      (part : BlockPartition W) (lba : ℕ) (buffer : ℕ → ℕ) (w : W)
      → Within d.total part
      → lba < part.lba_count
      → partition_write (part_of part) lba buffer w
        ≡ dev.drv.write dev.drv_priv (part.device_lba_offset + lba) buffer w
  unfolding partition_write
  write-Within part lba buffer w within l =
      rw (inside part.lba_count lba l, sector_of part lba within l, partition_write) refl

  -- Of two partitions within a device whose driver is a `Disk` (its reads give what was written last, and a
  -- write changes only its sector), a sector that is read through the one, after one was written through
  -- the other, is what was written if both are the same sector of the device, and else what a read gave
  -- before. A sector behind the end of its partition is not read or written, and the call returns 1.
  pub partition_read-partition_write :
      (p q : BlockPartition W) (lba other : ℕ) (buffer stack : ℕ → ℕ) (w : W)
      → Within d.total p
      → Within d.total q
      → other < q.lba_count
      → ((lba < p.lba_count)
          → (partition_read (part_of p) lba stack (partition_write (part_of q) other buffer w).1).1
            ≡ (if (p.device_lba_offset + lba) == (q.device_lba_offset + other)
                then buffer
                else (partition_read (part_of p) lba stack w).1))
        × ((p.lba_count ≤ lba)
            → (partition_read (part_of p) lba stack w ≡ (1, stack, w))
              × (partition_write (part_of p) lba buffer w ≡ (1, w)))
  unfolding partition_read partition_write
  partition_read-partition_write p q lba other buffer stack w hp hq o =
      let a = p.device_lba_offset + lba in
      let b = q.device_lba_offset + other in
      let after = (dev.drv.write dev.drv_priv b buffer w).1 in
      (
        λ l.
            let in_disk : a < d.total = omega (arith, hp.ends_within, l) in
            rw (write-Within q other buffer w hq o, read-Within p lba stack after hp l)
              (elim (Bool-cases (a == b)) [
                | inl e ↦ rw e (
                    d.reads a stack after in_disk
                    ∙ (ap (d.sector after) (same a b e)
                        ∙ d.writes b buffer w (omega (arith, hq.ends_within, o))))
                | inr e ↦
                    rw (e, read-Within p lba stack w hp l)
                      (d.reads a stack after in_disk
                        ∙ (d.write_keeps b a buffer w (other_sector a b e)
                            ∙ sym (d.reads a stack w in_disk)))
              ]),
        λ l. (
          rw (outside p.lba_count lba l, partition_read) refl,
          rw (outside p.lba_count lba l, partition_write) refl,
        ),
      )
