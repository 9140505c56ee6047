-- ===== src/Vfs/Files.antt =====
-- kernel/FS/VFS.cpp: the calls on files, and those on directories that a file system must carry out. Only
-- the file system knows what a `FS::File` is.
use baby_osv.Base.{ℕ, zero, suc, true, false, not, ◌&&◌, Option, none, some, List, [], ◌∷◌}
use baby_osv.Base.Outcome.{Outcome, ok, fault, ◌>>=◌}
use baby_osv.Libc.{same_string}
use baby_osv.FilePath.{FilePath, go_up, path_of}
use baby_osv.Vfs.{
  Status, success, undefined, succeeded, FsInfo, MountPoint, Inside, Directory, directory_open_root,
  directory_close,
}
use baby_osv.Vfs.Changing.{directory_change}

pub record File (P W D F : Type 0) : Type 0 where
  pub fs_info : FsInfo P W D F
  pub fs_priv : ℕ
  pub fs_file : F

-- What `FileOpen` leaves: `none` for the file if the pointer to it is not set.
abbrev pub Opening : (P W D F : Type 0) → Type 0
Opening P W D F = Status × Option (File P W D F) × Directory P W D F × W

abbrev pub last_name : FilePath → Option (List ℕ)
last_name [] = none
last_name (x ∷ []) = some x
last_name (x ∷ y ∷ path) = last_name (y ∷ path)

module _ {P W D F : Type 0} where
  unfoldable pub directory_create : Directory P W D F → List ℕ → W → Status × Directory P W D F × W
  directory_create dir name w = elim dir.inside [
    | none ↦ (undefined, dir, w)
    | some i ↦
        let (status, d, w') = i.fs_info.directory_create i.fs_priv i.fs_dir name w in
        (status, record dir { inside = some (record i { fs_dir = d }) }, w')
  ]

  -- The call reads `dir->fsInfo` without a test.
  unfoldable pub file_create :
      Directory P W D F → List ℕ → W → Outcome (Status × Directory P W D F × W)
  file_create dir name w = elim dir.inside [
    | none ↦ fault
    | some i ↦
        let (status, d, w') = i.fs_info.file_create i.fs_priv i.fs_dir name w in
        ok (status, record dir { inside = some (record i { fs_dir = d }) }, w')
  ]

  -- The loop of `FileOpen`, which ends at the name or behind the last entry.
  unfoldable pub seek : ℕ → List ℕ → Inside P W D F → W → Option (Inside P W D F × W)
  seek zero name i w = none
  seek (suc fuel) name i w =
      let (status, e, d, w') = i.fs_info.directory_read i.fs_priv i.fs_dir w in
      elim (succeeded status && not (e.is_valid && same_string e.name name)) [
        | true ↦ seek fuel name (record i { fs_dir = d }) w'
        | false ↦ some (record i { fs_dir = d }, w')
      ]

  -- The entry that the directory stands on is opened, whether it has the name or not.
  abbrev pub open_here : Inside P W D F × W → Status × File P W D F × W
  open_here (i, w) =
      let (status, file, w') = i.fs_info.file_open i.fs_priv i.fs_dir w in
      (status, record { fs_info = i.fs_info; fs_priv = i.fs_priv; fs_file = file }, w')

  abbrev pub opened : Directory P W D F → Inside P W D F × W → Opening P W D F
  opened dir (i, w) =
      let (status, file, w') = open_here (i, w) in
      (status, some file, record dir { inside = some i }, w')

  unfoldable pub file_open : ℕ → List ℕ → Directory P W D F → W → Option (Opening P W D F)
  unfolding seek
  file_open fuel name dir w = elim dir.inside [
    | none ↦ some (undefined, none, dir, w)
    | some i ↦
        let (status, d, w') = i.fs_info.directory_rewind i.fs_priv i.fs_dir w in
        elim (seek fuel name (record i { fs_dir = d }) w') [
          | none ↦ none
          | some r ↦ some (opened dir r)
        ]
  ]

  -- `FileOpen` on a path: a directory that cannot be changed to is passed over.
  unfoldable pub change_along :
      ℕ
      → List (MountPoint P W D F)
      → FilePath
      → Directory P W D F
      → W
      → Outcome (Option (Directory P W D F × W))
  unfolding directory_change
  change_along fuel mps [] dir w = ok (some (dir, w))
  change_along fuel mps (name ∷ path) dir w = directory_change fuel mps name dir w >>= λ r. elim r [
    | none ↦ ok none
    | some (status, dir', w') ↦ change_along fuel mps path dir' w'
  ]

  abbrev pub open_and_close : Option (Opening P W D F) → Option (Status × Option (File P W D F) × W)
  open_and_close none = none
  open_and_close (some (status, file, dir, w)) = some (success, file, (directory_close dir w).1)

  abbrev pub open_in :
      ℕ → List ℕ → Option (Directory P W D F × W) → Option (Status × Option (File P W D F) × W)
  open_in fuel name none = none
  open_in fuel name (some (dir, w)) = open_and_close (file_open fuel name dir w)

  -- The path without its last name is walked along. `Back` of an empty array is no element.
  unfoldable pub open_along :
      ℕ
      → List (MountPoint P W D F)
      → W
      → FilePath
      → Outcome (Option (Status × Option (File P W D F) × W))
  unfolding file_open change_along directory_open_root directory_close go_up
  open_along fuel mps w path = elim (last_name path) [
    | none ↦ fault
    | some name ↦
        change_along fuel mps (go_up path) directory_open_root w >>= λ r. ok (open_in fuel name r)
  ]

  unfoldable pub file_open_path :
      ℕ
      → List (MountPoint P W D F)
      → List ℕ
      → W
      → Outcome (Option (Status × Option (File P W D F) × W))
  unfolding open_along path_of
  file_open_path fuel mps path w = path_of path >>= open_along fuel mps w

  unfoldable pub file_close : File P W D F → W → Status × W
  file_close file w = (success, (file.fs_info.file_close file.fs_priv file.fs_file w).1)

  unfoldable pub file_read : File P W D F → ℕ → W → Status × List ℕ × File P W D F × W
  file_read file buffer_size w =
      let (status, bytes, g, w') = file.fs_info.file_read file.fs_priv file.fs_file buffer_size w in
      (status, bytes, record file { fs_file = g }, w')

  unfoldable pub file_write : File P W D F → List ℕ → W → Status × ℕ × File P W D F × W
  file_write file buffer w =
      let (status, write_count, g, w') =
        file.fs_info.file_write file.fs_priv file.fs_file buffer w in
      (status, write_count, record file { fs_file = g }, w')

  unfoldable pub file_set_pointer : File P W D F → ℕ → W → Status × File P W D F × W
  file_set_pointer file offset w =
      let (status, g, w') = file.fs_info.file_set_pointer file.fs_priv file.fs_file offset w in
      (status, record file { fs_file = g }, w')

  unfoldable pub file_get_pointer : File P W D F → W → Status × ℕ
  file_get_pointer file w = file.fs_info.file_get_pointer file.fs_priv file.fs_file w
