-- ===== src/Fat/Format/Formatted.antt =====
-- What `FormatFAT` leaves on the disk.
use baby_osv.Base.{
  ℕ, zero, suc, ◌+◌, ◌-◌, ◌^◌, update, ◌≤◌, ◌<◌, ◌≡◌, ◌≢◌, ◌∙◌, refl, sym, ap, arith, add32,
  u32_mod, mod_small, subst,
}
use baby_osv.Block.{BlockDevice, BlockPartition, partition_write}
use baby_osv.Block.Disk.{Disk}
use baby_osv.Block.Sectors.{Within, part_of, write-Within}
use baby_osv.Fat.Layout.{Bpb}
use baby_osv.Fat.Format.{clear_sectors, format_fat, first_sector, empty_sector, fat_start}

first_sector-zero : (o : ℕ) → 3 ≤ o → first_sector o ≡ 0
unfolding first_sector update
first_sector-zero o l = ground (arith, l)

module _ {W : Type 0} (dev : BlockDevice W) (d : Disk dev.drv dev.drv_priv) where
  -- The sectors behind the start are cleared, and no others are changed.
  clear_sectors-sector :
      (count start : ℕ) (part : BlockPartition W) (w : W)
      → Within d.total part
      → start + count ≤ part.lba_count
      → start + count < u32_mod
      → let after = clear_sectors count start (part_of dev d part) w in
        ((k : ℕ) → k < count → d.sector after (part.device_lba_offset + (start + k)) ≡ empty_sector)
        × ((s : ℕ)
            → ((k : ℕ) → k < count → s ≢ part.device_lba_offset + (start + k))
            → d.sector after s ≡ d.sector w s)
  unfolding clear_sectors
  clear_sectors-sector zero start part w within h u =
      (λ k l. absurd (omega (arith, l)), λ s n. refl)
  clear_sectors-sector (suc count) start part w within h u =
      let one = (partition_write (part_of dev d part) start empty_sector w).1 in
      let next : add32 start 1 ≡ start + 1 = mod_small (start + 1) u32_mod (omega (arith, u)) in
      let here : start < part.lba_count = omega (arith, h) in
      let write = write-Within dev d part start empty_sector w within here in
      let rest =
        clear_sectors-sector count (add32 start 1) part one within
          (subst (λ n. n + count ≤ part.lba_count) (sym next) (omega (arith, h)))
          (subst (λ n. n + count < u32_mod) (sym next) (omega (arith, u))) in
      let shift : (k : ℕ)
          → part.device_lba_offset + (add32 start 1 + k)
            ≡ part.device_lba_offset + (start + suc k) =
        λ k.
          subst (λ n. part.device_lba_offset + (n + k) ≡ part.device_lba_offset + (start + suc k))
            (sym next) (omega arith) in
      let after = clear_sectors count (add32 start 1) (part_of dev d part) one in
      (
        λ k l.
            elim k
                as (λ k.
                  k < suc count
                  → d.sector after (part.device_lba_offset + (start + k)) ≡ empty_sector) [
                    | zero ↦ λ l.
                        rest.1 (part.device_lba_offset + (start + 0))
                          (λ j m q. omega (arith, q ∙ shift j))
                        ∙ (ap (λ r. d.sector r.1 (part.device_lba_offset + (start + 0))) write
                            ∙ subst
                                (λ s.
                                  d.sector
                                    (dev.drv.write dev.drv_priv (part.device_lba_offset + start)
                                      empty_sector w).1
                                    s
                                  ≡ empty_sector)
                                (omega arith)
                                (d.writes (part.device_lba_offset + start) empty_sector w
                                  (omega (arith, within.ends_within, here))))
                    | suc j ↦ λ l.
                        subst (λ s. d.sector after s ≡ empty_sector) (shift j)
                          (rest.0 j (omega (arith, l)))
                  ]
              l,
        λ s n.
            rest.1 s (λ k l q. n (suc k) (omega (arith, l)) (q ∙ shift k))
            ∙ (ap (λ r. d.sector r.1 s) write
                ∙ d.write_keeps (part.device_lba_offset + start) s empty_sector w
                    (λ q. n 0 (omega arith) (q ∙ omega arith))),
      )

  -- The same, by the sector that is written.
  formatted :
      (part : BlockPartition W) (bpb : Bpb) (w : W)
      → Within d.total part
      → 1 ≤ bpb.sectors_per_fat
      → fat_start bpb + bpb.sectors_per_fat ≤ part.lba_count
      → fat_start bpb + bpb.sectors_per_fat < u32_mod
      → let after = (format_fat (part_of dev d part) bpb w).1 in
        let start = part.device_lba_offset + fat_start bpb in
        (d.sector after start ≡ first_sector)
        × ((k : ℕ) → suc k < bpb.sectors_per_fat → d.sector after (start + suc k) ≡ empty_sector)
        × ((s : ℕ)
            → ((k : ℕ) → k < bpb.sectors_per_fat → s ≢ start + k)
            → d.sector after s ≡ d.sector w s)
  unfolding format_fat
  formatted part bpb w within some_sector h u =
      let start = fat_start bpb in
      let place = part.device_lba_offset + start in
      let one = (partition_write (part_of dev d part) start first_sector w).1 in
      let next : add32 start 1 ≡ start + 1 =
        mod_small (start + 1) u32_mod (omega (arith, u, some_sector)) in
      let here : start < part.lba_count = omega (arith, h, some_sector) in
      let write = write-Within dev d part start first_sector w within here in
      let rest =
        clear_sectors-sector (bpb.sectors_per_fat - 1) (add32 start 1) part one within
          (subst (λ n. n + (bpb.sectors_per_fat - 1) ≤ part.lba_count) (sym next)
            (omega (arith, h, some_sector)))
          (subst (λ n. n + (bpb.sectors_per_fat - 1) < u32_mod) (sym next)
            (omega (arith, u, some_sector))) in
      let shift : (k : ℕ) → part.device_lba_offset + (add32 start 1 + k) ≡ place + suc k = λ k.
        subst (λ n. part.device_lba_offset + (n + k) ≡ place + suc k) (sym next) (omega arith) in
      (
        rest.1 place (λ j m q. omega (arith, q ∙ shift j))
            ∙ (ap (λ r. d.sector r.1 place) write
                ∙ d.writes place first_sector w (omega (arith, within.ends_within, here))),
        λ k l.
            subst (λ s. d.sector (format_fat (part_of dev d part) bpb w).1 s ≡ empty_sector)
              (shift k) (rest.0 k (omega (arith, l))),
        λ s n.
            rest.1 s (λ k l q. n (suc k) (omega (arith, l)) (q ∙ shift k))
            ∙ (ap (λ r. d.sector r.1 s) write
                ∙ d.write_keeps place s first_sector w
                    (λ q. n 0 (omega (arith, some_sector)) (q ∙ omega arith))),
      )

  -- For a partition within a device whose driver is a `Disk` (its reads give what was written last, and a
  -- write changes only its sector), and a table of at least one sector that stands, behind the reserved and
  -- the hidden sectors, within the partition and below 2^32: behind `FormatFAT` the first sector of the table
  -- holds the bytes F0 FF FF and from there on 0, the other sectors of the table hold 0, and no other sector
  -- of the device is changed.
  pub format_fat_lem :
      (part : BlockPartition W) (bpb : Bpb) (w : W)
      → Within d.total part
      → 1 ≤ bpb.sectors_per_fat
      → bpb.reserved_sectors + bpb.hidden_sectors + bpb.sectors_per_fat ≤ part.lba_count
      → bpb.reserved_sectors + bpb.hidden_sectors + bpb.sectors_per_fat < 2 ^ 32
      → let after = (format_fat (part_of dev d part) bpb w).1 in
        let start = part.device_lba_offset + (bpb.reserved_sectors + bpb.hidden_sectors) in
        ((d.sector after start 0 ≡ 0xf0)
          × (d.sector after start 1 ≡ 0xff)
          × (d.sector after start 2 ≡ 0xff)
          × ((o : ℕ) → 3 ≤ o → d.sector after start o ≡ 0))
        × ((k o : ℕ) → suc k < bpb.sectors_per_fat → d.sector after (start + suc k) o ≡ 0)
        × ((s : ℕ)
            → ((k : ℕ) → k < bpb.sectors_per_fat → s ≢ start + k)
            → d.sector after s ≡ d.sector w s)
  unfolding first_sector
  format_fat_lem part bpb w within some_sector h u =
      let at_start : fat_start bpb ≡ bpb.reserved_sectors + bpb.hidden_sectors =
        mod_small (bpb.reserved_sectors + bpb.hidden_sectors) u32_mod (omega (arith, u)) in
      let (first, others, rest) =
        formatted part bpb w within some_sector
          (subst (λ n. n + bpb.sectors_per_fat ≤ part.lba_count) (sym at_start) h)
          (subst (λ n. n + bpb.sectors_per_fat < u32_mod) (sym at_start) u) in
      let after = (format_fat (part_of dev d part) bpb w).1 in
      let place : part.device_lba_offset + (bpb.reserved_sectors + bpb.hidden_sectors)
          ≡ part.device_lba_offset + fat_start bpb =
        ap (λ n. part.device_lba_offset + n) (sym at_start) in
      let byte = λ (o : ℕ). ap (λ s. d.sector after s o) place ∙ ap (λ f. f o) first in
      (
        (byte 0, byte 1, byte 2, λ o l. byte o ∙ first_sector-zero o l),
        λ k o l. ap (λ s. d.sector after (s + suc k) o) place ∙ ap (λ f. f o) (others k l),
        λ s n. rest s (λ k l q. n k l (q ∙ ap (λ t. t + k) (sym place))),
      )
