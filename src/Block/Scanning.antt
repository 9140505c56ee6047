-- ===== src/Block/Scanning.antt =====
-- The partitions that a new device gets.
use mathlib.Core.List.{map-append}
use baby_osv.Base.{
  ℕ, ◌+◌, ◌*◌, ◌%◌, ◌&&◌, not, ltb, ◌==◌, ◌<◌, ◌≡◌, ◌∙◌, refl, sym, ap, inl, inr, if◌then◌else◌,
  List, [], ◌∷◌, ◌++◌, map, append-nil, append_assoc, Bool-cases,
}
use baby_osv.Block.{
  DeviceType, PartitionType, raw, primary, BlockDeviceDriver, BlockDevice, BlockPartition, Blocks,
  MbrPartitionEntry, mbr_entries, is_used, scan_entry, scan_entries, scan_mbr, register_partition,
  register_device, new_device, with_device, type_number,
}
use baby_osv.Block.Disk.{Disk}

-- The type of a partition, its first sector and their number.
abbrev pub extent : {W : Type 0} → BlockPartition W → PartitionType × ℕ × ℕ
extent part = (part.type, part.device_lba_offset, part.lba_count)

-- The number in four bytes, the lowest first.
abbrev little_endian : (ℕ → ℕ) → ℕ → ℕ
little_endian mbr o = mbr o + 0x100 * mbr (o + 1) + 0x10000 * mbr (o + 2) + 0x1000000 * mbr (o + 3)

-- The partition that the sixteen bytes from an offset on describe: none for the type 0, for a first byte
-- with one of the lower seven bits, and for a first sector or a size that the device does not have.
abbrev pub described : ℕ → (ℕ → ℕ) → ℕ → List (PartitionType × ℕ × ℕ)
described total mbr o =
    let first = little_endian mbr (o + 8) in
    let size = little_endian mbr (o + 12) in
    if not (mbr (o + 4) == 0) && ((mbr o % 128 == 0) && (ltb first total && ltb size total))
    then (primary, first, size) ∷ []
    else []

-- Those of the four entries of a boot record.
abbrev pub described_by : ℕ → (ℕ → ℕ) → List (PartitionType × ℕ × ℕ)
described_by total mbr =
    described total mbr 446
    ++ (described total mbr 462 ++ (described total mbr 478 ++ described total mbr 494))

abbrev wanted : ℕ → MbrPartitionEntry → List (PartitionType × ℕ × ℕ)
wanted total e = if is_used total e then (primary, e.lba_first, e.lba_size) ∷ [] else []

abbrev all_wanted : ℕ → List MbrPartitionEntry → List (PartitionType × ℕ × ℕ)
all_wanted total [] = []
all_wanted total (e ∷ es) = wanted total e ++ all_wanted total es

mbr_entries-described :
    (total : ℕ) (mbr : ℕ → ℕ) → all_wanted total (mbr_entries mbr) ≡ described_by total mbr
unfolding mbr_entries
mbr_entries-described total mbr =
    ap
      (λ xs.
        described total mbr 446 ++ (described total mbr 462 ++ (described total mbr 478 ++ xs)))
      (append-nil (described total mbr 494))

module _ {W : Type 0} (dev : BlockDevice W) (d : Disk dev.drv dev.drv_priv) where
  scan_entry-extents :
      (e : MbrPartitionEntry) (b : Blocks W)
      → map extent (scan_entry dev e b).partitions ≡ map extent b.partitions ++ wanted d.total e
  unfolding scan_entry register_partition
  scan_entry-extents e b = elim (Bool-cases (is_used d.total e)) [
    | inl u ↦ rw (d.sizes b.world, u) (map-append extent b.partitions _)
    | inr u ↦ rw (d.sizes b.world, u) (sym (append-nil (map extent b.partitions)))
  ]

  scan_entries-extents :
      (es : List MbrPartitionEntry) (b : Blocks W)
      → map extent (scan_entries dev es b).partitions
        ≡ map extent b.partitions ++ all_wanted d.total es
  unfolding scan_entries
  scan_entries-extents [] b = sym (append-nil (map extent b.partitions))
  scan_entries-extents (e ∷ es) b =
      scan_entries-extents es (scan_entry dev e b)
      ∙ (ap (λ xs. xs ++ all_wanted d.total es) (scan_entry-extents e b)
          ∙ append_assoc (map extent b.partitions) (wanted d.total e) (all_wanted d.total es))

  scan_entries-devices :
      (es : List MbrPartitionEntry) (b : Blocks W) → (scan_entries dev es b).devices ≡ b.devices
  unfolding scan_entries scan_entry register_partition
  scan_entries-devices [] b = refl
  scan_entries-devices (e ∷ es) b =
      scan_entries-devices es (scan_entry dev e b)
      ∙ (elim (Bool-cases (is_used (dev.drv.size dev.drv_priv b.world).0 e)) [
        | inl u ↦ rw (u, scan_entry) refl
        | inr u ↦ rw (u, scan_entry) refl
      ])

  scan_mbr-extents :
      (stack : ℕ → ℕ) (b : Blocks W)
      → 0 < d.total
      → map extent (scan_mbr stack dev b).partitions
        ≡ map extent b.partitions ++ all_wanted d.total (mbr_entries (d.sector b.world 0))
  unfolding scan_mbr
  scan_mbr-extents stack b h =
      let r = dev.drv.read dev.drv_priv 0 stack b.world in
      scan_entries-extents (mbr_entries r.1) (record b { world = r.2 })
      ∙ ap (λ mbr. map extent b.partitions ++ all_wanted d.total (mbr_entries mbr))
          (d.reads 0 stack b.world h)

  scan_mbr-devices : (stack : ℕ → ℕ) (b : Blocks W) → (scan_mbr stack dev b).devices ≡ b.devices
  unfolding scan_mbr
  scan_mbr-devices stack b =
      let r = dev.drv.read dev.drv_priv 0 stack b.world in
      scan_entries-devices (mbr_entries r.1) (record b { world = r.2 })

module _ {W : Type 0} where
  -- For a driver that is a `Disk` (its reads give what was written last, a write changes only its sector, and
  -- the size stays) and a device that is not empty, `RegisterDevice` adds one device, and behind the
  -- partitions that there were a raw one of all sectors and then a primary one for each of the four entries
  -- of sixteen bytes from 446 on of sector 0 whose type, its byte 4, is not 0, whose byte 0 is 0 or
  -- 0x80, and whose first sector (bytes 8 to 11) and size (12 to 15) are below the device's
  -- size, with these two numbers and in their order.
  pub register_device_lem :
      (stack : ℕ → ℕ) (type : DeviceType) (drv : BlockDeviceDriver W) (priv : ℕ) (b : Blocks W)
      (d : Disk drv priv)
      → 0 < d.total
      → let after = register_device stack type drv priv b in
        (after.devices
          ≡ b.devices ++ (new_device type drv priv (b.devices_types_count (type_number type)) ∷ []))
        × (map extent after.partitions
            ≡ map extent b.partitions
              ++ ((raw, 0, d.total) ∷ described_by d.total (d.sector b.world 0)))
  unfolding register_device with_device register_partition
  register_device_lem stack type drv priv b d h =
      let dev : BlockDevice W =
        new_device type drv priv (b.devices_types_count (type_number type)) in
      let given : Blocks W = with_device type drv priv b in
      (
        scan_mbr-devices dev d stack given,
        scan_mbr-extents dev d stack given h
            ∙ (ap
                  (λ sectors.
                    map extent given.partitions ++ all_wanted d.total (mbr_entries (sectors 0)))
                  (d.size_keeps b.world)
                ∙ (ap (λ xs. xs ++ all_wanted d.total (mbr_entries (d.sector b.world 0)))
                      (map-append extent b.partitions _
                        ∙ ap (λ t. map extent b.partitions ++ ((raw, 0, t) ∷ [])) (d.sizes b.world))
                    ∙ append_assoc (map extent b.partitions) ((raw, 0, d.total) ∷ [])
                        (all_wanted d.total (mbr_entries (d.sector b.world 0)))
                    ∙ ap (λ xs. map extent b.partitions ++ ((raw, 0, d.total) ∷ xs))
                        (mbr_entries-described d.total (d.sector b.world 0)))),
      )
