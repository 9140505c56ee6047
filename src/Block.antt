-- ===== src/Block.antt =====
-- kernel/Block/Block.cpp, and the layout of a boot record in Block/ATA.hpp. `W` is what the drivers keep and
-- change; a `void*` to a device is a number, and a buffer a function from the offset to the byte. A partition
-- holds its device. The interrupt of `FAIL` returns.
pub mod Disk
pub mod Sectors
pub mod Scanning
mod Tests
use baby_osv.Base.{
  ℕ, zero, suc, ◌+◌, ◌*◌, ◌/◌, ◌%◌, Bool, true, false, not, ◌&&◌, Option, none, some, List, [], ◌∷◌,
  ◌++◌, ltb, leb, ◌==◌, if◌then◌else◌, add32, update,
}

pub data DeviceType : Type 0 where
  unknown floppy hard_drive cd_rom : DeviceType

pub data PartitionType : Type 0 where
  raw primary extended : PartitionType

pub record BlockDeviceDriver (W : Type 0) : Type 0 where
  pub size : ℕ → W → ℕ × W
  pub block_size : ℕ → W → ℕ × W
  pub lock : ℕ → W → ℕ × W
  pub unlock : ℕ → W → ℕ × W
  pub read : ℕ → ℕ → (ℕ → ℕ) → W → ℕ × (ℕ → ℕ) × W
  pub write : ℕ → ℕ → (ℕ → ℕ) → W → ℕ × W

pub record BlockDevice (W : Type 0) : Type 0 where
  pub type : DeviceType
  pub drv : BlockDeviceDriver W
  pub drv_priv : ℕ
  pub name : List ℕ

pub record BlockPartition (W : Type 0) : Type 0 where
  pub type : PartitionType
  pub device : BlockDevice W
  pub device_lba_offset : ℕ
  pub lba_count : ℕ
  pub name : List ℕ

-- `devices`, `partitions`, `devicesTypesCount` by the number of the type, the static `x`, and what the
-- drivers keep.
pub record Blocks (W : Type 0) : Type 0 where
  pub devices : List (BlockDevice W)
  pub partitions : List (BlockPartition W)
  pub devices_types_count : ℕ → ℕ
  pub partition_count : ℕ
  pub world : W

abbrev pub type_number : DeviceType → ℕ
type_number unknown = 0
type_number floppy = 1
type_number hard_drive = 2
type_number cd_rom = 3

abbrev pub device_type_name : DeviceType → List ℕ
device_type_name unknown = b'u' ∷ b'n' ∷ b'k' ∷ []
device_type_name floppy = b'f' ∷ b'd' ∷ b'd' ∷ []
device_type_name hard_drive = b'h' ∷ b'd' ∷ b'd' ∷ []
device_type_name cd_rom = b'c' ∷ b'd' ∷ []

abbrev pub part_type_name : PartitionType → List ℕ
part_type_name raw = b'r' ∷ []
part_type_name primary = b'p' ∷ []
part_type_name extended = b'e' ∷ []

-- `tmp`, a string of one character.
abbrev pub digit : ℕ → List ℕ
digit n = let c = (b'0' + n) % 256 in if c == 0 then [] else c ∷ []

-- `MBRPartitionEntry` and its place in an `MBR`; the addresses as cylinder, head and sector are left out.
pub record MbrPartitionEntry : Type 0 where
  pub reserved : ℕ
  pub bootable : Bool
  pub type : ℕ
  pub lba_first : ℕ
  pub lba_size : ℕ

abbrev pub word_at : (ℕ → ℕ) → ℕ → ℕ
word_at buffer o =
    buffer o + 256 * buffer (o + 1) + 65536 * buffer (o + 2) + 16777216 * buffer (o + 3)

unfoldable pub mbr_entry : (ℕ → ℕ) → ℕ → MbrPartitionEntry
mbr_entry mbr k =
    let o = 446 + 16 * k in
    record {
      reserved = mbr o % 128;
      bootable = mbr o / 128 == 1;
      type = mbr (o + 4);
      lba_first = word_at mbr (o + 8);
      lba_size = word_at mbr (o + 12);
    }

-- `mbr.partitions`
unfoldable pub mbr_entries : (ℕ → ℕ) → List MbrPartitionEntry
unfolding mbr_entry
mbr_entries mbr = mbr_entry mbr 0 ∷ mbr_entry mbr 1 ∷ mbr_entry mbr 2 ∷ mbr_entry mbr 3 ∷ []

abbrev pub is_used : ℕ → MbrPartitionEntry → Bool
is_used dev_total_lba e =
    not (e.type == 0)
    && ((e.reserved == 0) && (ltb e.lba_first dev_total_lba && ltb e.lba_size dev_total_lba))

module _ {W : Type 0} where
  unfoldable pub partition_read : BlockPartition W → ℕ → (ℕ → ℕ) → W → ℕ × (ℕ → ℕ) × W
  partition_read part lba buffer w =
      if leb part.lba_count lba
      then (1, buffer, w)
      else part.device.drv.read part.device.drv_priv (add32 part.device_lba_offset lba) buffer w

  unfoldable pub partition_write : BlockPartition W → ℕ → (ℕ → ℕ) → W → ℕ × W
  partition_write part lba buffer w =
      if leb part.lba_count lba
      then (1, w)
      else part.device.drv.write part.device.drv_priv (add32 part.device_lba_offset lba) buffer w

  unfoldable pub register_partition : PartitionType → BlockDevice W → ℕ → ℕ → Blocks W → Blocks W
  register_partition type dev lba_offset lba_count b =
      let part : BlockPartition W = record {
        type = type;
        device = dev;
        device_lba_offset = lba_offset;
        lba_count = lba_count;
        name = dev.name ++ (part_type_name type ++ digit b.partition_count);
      } in
      record b {
        partitions = b.partitions ++ (part ∷ []);
        partition_count = add32 b.partition_count 1;
      }

  -- One round of the loop of `ScanMBR`, which asks the device for its size.
  unfoldable pub scan_entry : BlockDevice W → MbrPartitionEntry → Blocks W → Blocks W
  unfolding register_partition
  scan_entry dev e b =
      let (total, w) = dev.drv.size dev.drv_priv b.world in
      let next = record b { world = w } in
      if is_used total e then register_partition primary dev e.lba_first e.lba_size next else next

  unfoldable pub scan_entries : BlockDevice W → List MbrPartitionEntry → Blocks W → Blocks W
  unfolding scan_entry
  scan_entries dev [] b = b
  scan_entries dev (e ∷ es) b = scan_entries dev es (scan_entry dev e b)

  -- `stack` is what the stack holds where the record is read to.
  unfoldable pub scan_mbr : (ℕ → ℕ) → BlockDevice W → Blocks W → Blocks W
  unfolding scan_entries mbr_entries
  scan_mbr stack dev b =
      let (status, mbr, w) = dev.drv.read dev.drv_priv 0 stack b.world in
      scan_entries dev (mbr_entries mbr) (record b { world = w })

  abbrev pub new_device : DeviceType → BlockDeviceDriver W → ℕ → ℕ → BlockDevice W
  new_device type drv drv_priv count = record {
    type = type;
    drv = drv;
    drv_priv = drv_priv;
    name = device_type_name type ++ digit count;
  }

  -- Before the scan: the device with its raw partition.
  unfoldable pub with_device : DeviceType → BlockDeviceDriver W → ℕ → Blocks W → Blocks W
  unfolding register_partition
  with_device type drv drv_priv b =
      let count = b.devices_types_count (type_number type) in
      let dev = new_device type drv drv_priv count in
      let (total, w) = drv.size drv_priv b.world in
      register_partition raw dev 0 total (record b {
        devices = b.devices ++ (dev ∷ []);
        devices_types_count = update b.devices_types_count (type_number type) ((count + 1) % 256);
        world = w;
      })

  unfoldable pub register_device :
      (ℕ → ℕ) → DeviceType → BlockDeviceDriver W → ℕ → Blocks W → Blocks W
  unfolding scan_mbr with_device
  register_device stack type drv drv_priv b =
      scan_mbr stack (new_device type drv drv_priv (b.devices_types_count (type_number type)))
        (with_device type drv drv_priv b)
