-- ===== src/Vfs.antt =====
-- kernel/FS/VFS.cpp and the interface of a file system in FS/FS.hpp. `P`, `D` and `F` are what a partition,
-- a directory and a file of a file system are, and `W` is what the file systems keep and change; a `void*` to
-- a mounted one is a number. A call returns what it writes through its pointers behind its status.
pub mod Changing
pub mod Files
pub mod Listing
pub mod Mounting
mod Tests
use baby_osv.Base.{
  ℕ, zero, suc, ◌-◌, ◌%◌, ◌^◌, Bool, true, false, not, ◌&&◌, ◌||◌, Option, none, some, List, [],
  ◌∷◌, ◌++◌, ltb, leb, ◌==◌, if◌then◌else◌, add32, get_elem?,
}
use baby_osv.Base.Outcome.{Outcome, ok, fault, ◌>>=◌}
use baby_osv.Libc.{same_string}
use baby_osv.FilePath.{FilePath, add, go_up}

pub data Status : Type 0 where
  success timeout io_error end_of_file undefined : Status

abbrev pub succeeded : Status → Bool
succeeded success = true
succeeded s = false

pub record DirEntry : Type 0 where
  pub is_valid : Bool
  pub is_directory : Bool
  pub is_symlink : Bool
  pub is_hidden : Bool
  pub size : ℕ
  pub name : List ℕ

pub record FsInfo (P W D F : Type 0) : Type 0 where
  pub name : List ℕ
  pub probe : P → W → Status × W
  pub mount : P → W → Status × ℕ × W
  pub flush : ℕ → W → Status × W
  pub directory_open_root : ℕ → W → Status × D × W
  pub directory_close : ℕ → D → W → Status × W
  pub directory_read : ℕ → D → W → Status × DirEntry × D × W
  pub directory_rewind : ℕ → D → W → Status × D × W
  pub directory_follow : ℕ → D → W → Status × D × W
  pub directory_create : ℕ → D → List ℕ → W → Status × D × W
  pub file_create : ℕ → D → List ℕ → W → Status × D × W
  pub file_open : ℕ → D → W → Status × F × W
  pub file_close : ℕ → F → W → Status × W
  pub file_read : ℕ → F → ℕ → W → Status × List ℕ × F × W
  pub file_write : ℕ → F → List ℕ → W → Status × ℕ × F × W
  pub file_set_pointer : ℕ → F → ℕ → W → Status × F × W
  pub file_get_pointer : ℕ → F → W → Status × ℕ

pub record MountPoint (P W D F : Type 0) : Type 0 where
  pub name : List ℕ
  pub fs_info : FsInfo P W D F
  pub fs_priv : ℕ

-- The part of a `Directory` that is set inside of a mounted file system, where `fsInfo` is not `nullptr`.
pub record Inside (P W D F : Type 0) : Type 0 where
  pub fs_info : FsInfo P W D F
  pub fs_priv : ℕ
  pub fs_dir : D

pub record Directory (P W D F : Type 0) : Type 0 where
  pub index : ℕ
  pub inside : Option (Inside P W D F)
  pub path : FilePath

-- `mountPoints`, and what the file systems keep.
pub record Vfs (P W D F : Type 0) : Type 0 where
  pub mount_points : List (MountPoint P W D F)
  pub world : W

-- The first partition of a name.
abbrev pub find_partition : {P : Type 0} → List ℕ → List (List ℕ × P) → Option P
find_partition name [] = none
find_partition name ((n, part) ∷ parts) =
    if same_string n name then some part else find_partition name parts

-- Whether a file system is not of the type that was asked for.
abbrev pub other_type : Option (List ℕ) → List ℕ → Bool
other_type none name = false
other_type (some t) name = not (same_string t name)

module _ {P W D F : Type 0} where
  -- The first file system, of the type `fs_type` if one is asked for, whose `Probe` succeeds.
  unfoldable pub find_fs :
      Option (List ℕ) → P → List (FsInfo P W D F) → W → Option (FsInfo P W D F) × W
  find_fs fs_type part [] w = (none, w)
  find_fs fs_type part (fs ∷ fss) w = elim (other_type fs_type fs.name) [
    | true ↦ find_fs fs_type part fss w
    | false ↦ elim (succeeded (fs.probe part w).0) [
      | true ↦ (some fs, (fs.probe part w).1)
      | false ↦ find_fs fs_type part fss (fs.probe part w).1
    ]
  ]

  abbrev pub mount_on :
      P → List ℕ → Option (FsInfo P W D F) × W → Vfs P W D F → Status × Vfs P W D F
  mount_on part name (none, w) v = (undefined, record v { world = w })
  mount_on part name (some fs, w) v =
      let (status, priv, w') = fs.mount part w in
      if succeeded status
      then (
        success,
        record v {
          mount_points =
              v.mount_points ++ (record { name = name; fs_info = fs; fs_priv = priv } ∷ []);
          world = w';
        },
      )
      else (undefined, record v { world = w' })

  unfoldable pub mount :
      List (List ℕ × P)
      → List (FsInfo P W D F)
      → List ℕ
      → List ℕ
      → Option (List ℕ)
      → Vfs P W D F
      → Status × Vfs P W D F
  unfolding find_fs
  mount parts filesystems part_name mount_point fs_type v = elim (find_partition part_name parts) [
    | none ↦ (undefined, v)
    | some part ↦ mount_on part mount_point (find_fs fs_type part filesystems v.world) v
  ]

  abbrev pub flush_each : List (MountPoint P W D F) → W → W
  flush_each [] w = w
  flush_each (mp ∷ mps) w = flush_each mps (mp.fs_info.flush mp.fs_priv w).1

  unfoldable pub flush : Vfs P W D F → Status × Vfs P W D F
  flush v = (success, record v { world = flush_each v.mount_points v.world })

  -- `index = -1`
  unfoldable pub directory_open_root : Directory P W D F
  directory_open_root = record { index = 2 ^ 32 - 1; inside = none; path = [] }

  unfoldable pub directory_close : Directory P W D F → W → Status × W
  directory_close dir w = elim dir.inside [
    | none ↦ (success, w)
    | some i ↦ (success, (i.fs_info.directory_close i.fs_priv i.fs_dir w).1)
  ]

  -- The entry for a mount point, whose size is not set.
  abbrev pub entry_for : MountPoint P W D F → DirEntry → DirEntry
  entry_for mp e = record {
    is_valid = true;
    is_directory = true;
    is_symlink = false;
    is_hidden = false;
    size = e.size;
    name = mp.name;
  }

  abbrev pub read_root :
      Vfs P W D F → Directory P W D F → DirEntry → Status × DirEntry × Directory P W D F × W
  read_root v dir e =
      let index = add32 dir.index 1 in
      elim (get_elem? v.mount_points index) [
        | none ↦ (undefined, e, record dir { index = index }, v.world)
        | some mp ↦ (success, entry_for mp e, record dir { index = index }, v.world)
      ]

  -- `entry` is what the caller's `DirEntry` held.
  unfoldable pub directory_read :
      Vfs P W D F → Directory P W D F → DirEntry → Status × DirEntry × Directory P W D F × W
  directory_read v dir entry = elim dir.inside [
    | none ↦ read_root v dir entry
    | some i ↦
        let (status, e, d, w) = i.fs_info.directory_read i.fs_priv i.fs_dir v.world in
        (status, e, record dir { inside = some (record i { fs_dir = d }) }, w)
  ]

  unfoldable pub directory_rewind : Directory P W D F → W → Status × Directory P W D F × W
  directory_rewind dir w = elim dir.inside [
    | none ↦ (success, record dir { index = 2 ^ 32 - 1 }, w)
    | some i ↦
        let (status, d, w') = i.fs_info.directory_rewind i.fs_priv i.fs_dir w in
        (status, record dir { inside = some (record i { fs_dir = d }) }, w')
  ]
