-- ===== src/Block/Disk.antt =====
-- What a driver owes to the block devices: the sectors of a device keep what was written to them, and a read
-- gives it. The size stays, and neither a read nor a question changes a sector. `Write` of the driver for ATA
-- disks in kernel/Block/ATA.cpp is not implemented, so that one keeps to it only where nothing is written.
use baby_osv.Base.{ℕ, ◌≡◌, ◌<◌, ◌≢◌}
use baby_osv.Block.{BlockDeviceDriver}

pub record Disk {W : Type 0} (drv : BlockDeviceDriver W) (priv : ℕ) : Type 0 where
  pub total : ℕ
  pub sector : W → ℕ → ℕ → ℕ
  pub sizes : (w : W) → (drv.size priv w).0 ≡ total
  pub size_keeps : (w : W) → sector (drv.size priv w).1 ≡ sector w
  pub reads :
      (lba : ℕ) (buffer : ℕ → ℕ) (w : W)
      → lba < total
      → (drv.read priv lba buffer w).1 ≡ sector w lba
  pub read_keeps :
      (lba : ℕ) (buffer : ℕ → ℕ) (w : W) → sector (drv.read priv lba buffer w).2 ≡ sector w
  pub writes :
      (lba : ℕ) (buffer : ℕ → ℕ) (w : W)
      → lba < total
      → sector (drv.write priv lba buffer w).1 lba ≡ buffer
  pub write_keeps :
      (lba other : ℕ) (buffer : ℕ → ℕ) (w : W)
      → other ≢ lba
      → sector (drv.write priv lba buffer w).1 other ≡ sector w other
