-- ===== src/Vfs/Changing.antt =====
-- kernel/FS/VFS.cpp, `DirectoryChange` and `DirectoryGetPath`. The loop over the entries has fuel for its
-- rounds; the file system decides whether it ends.
use baby_osv.Base.{
  ℕ, zero, suc, true, false, not, ◌&&◌, Option, none, some, List, [], ◌∷◌, if◌then◌else◌,
}
use baby_osv.Base.Outcome.{Outcome, ok, ◌>>=◌}
use baby_osv.Libc.{same_string}
use baby_osv.FilePath.{FilePath, add, go_up}
use baby_osv.Vfs.{
  Status, success, end_of_file, undefined, succeeded, DirEntry, MountPoint, Inside, Directory,
}

abbrev pub parent_name : List ℕ
parent_name = b'.' ∷ b'.' ∷ []

-- The variables of the loop: `status`, the directory of the file system, `dir->path`, and the world.
pub record Walk (P W D F : Type 0) : Type 0 where
  pub status : Status
  pub inside : Inside P W D F
  pub path : FilePath
  pub world : W

abbrev pub path_after : Status → List ℕ → FilePath → Outcome FilePath
path_after status name path =
    if succeeded status
    then (if same_string name parent_name then ok (go_up path) else add name path)
    else ok path

module _ {P W D F : Type 0} where
  abbrev pub read_next : Walk P W D F → Status × DirEntry × Walk P W D F
  read_next s =
      let i = s.inside in
      let (status, e, d, w) = i.fs_info.directory_read i.fs_priv i.fs_dir s.world in
      (status, e, record s { inside = record i { fs_dir = d }; world = w })

  -- The loop goes on behind this, also where the directory was changed.
  abbrev pub follow : DirEntry → Walk P W D F → Outcome (Walk P W D F)
  follow e s =
      let i = s.inside in
      let (status, d, w) = i.fs_info.directory_follow i.fs_priv i.fs_dir s.world in
      path_after status e.name s.path >>= λ path.
      ok (record { status = status; inside = record i { fs_dir = d }; path = path; world = w })

  abbrev pub visit : List ℕ → DirEntry → Walk P W D F → Outcome (Walk P W D F)
  visit name e s = if e.is_valid && same_string e.name name then follow e s else ok s

  unfoldable pub look_for : ℕ → List ℕ → Walk P W D F → Outcome (Option (Walk P W D F))
  unfolding add go_up
  look_for zero name s = ok none
  look_for (suc fuel) name s = elim (succeeded (read_next s).0) [
    | true ↦ visit name (read_next s).1 (read_next s).2 >>= λ t. look_for fuel name t
    | false ↦ ok (some (read_next s).2)
  ]

  -- Behind the loop: `..` that the file system does not know leaves it.
  unfoldable pub leave : List ℕ → Directory P W D F → Walk P W D F → Status × Directory P W D F × W
  unfolding go_up
  leave name dir s =
      let i = s.inside in
      if not (succeeded s.status) && same_string name parent_name
      then (
        success,
        record dir { inside = none; path = go_up s.path },
        (i.fs_info.directory_close i.fs_priv i.fs_dir s.world).1,
      )
      else (s.status, record dir { inside = some i; path = s.path }, s.world)

  -- The directory is rewound, and its result ignored.
  abbrev pub start : Inside P W D F → FilePath → W → Walk P W D F
  start i path w =
      let (status, d, w') = i.fs_info.directory_rewind i.fs_priv i.fs_dir w in
      record { status = end_of_file; inside = record i { fs_dir = d }; path = path; world = w' }

  unfoldable pub find_mount_point : List ℕ → List (MountPoint P W D F) → Option (MountPoint P W D F)
  find_mount_point name [] = none
  find_mount_point name (mp ∷ mps) =
      if same_string name mp.name then some mp else find_mount_point name mps

  abbrev pub enter :
      Option (MountPoint P W D F) → Directory P W D F → W → Outcome (Status × Directory P W D F × W)
  enter none dir w = ok (undefined, dir, w)
  enter (some mp) dir w =
      let (status, d, w') = mp.fs_info.directory_open_root mp.fs_priv w in
      add mp.name dir.path >>= λ path. ok (
        success,
        record dir {
          inside = some (record { fs_info = mp.fs_info; fs_priv = mp.fs_priv; fs_dir = d });
          path = path;
        },
        w',
      )

  -- `ok none`: the call has not returned after `fuel` rounds of its loop.
  unfoldable pub directory_change :
      ℕ
      → List (MountPoint P W D F)
      → List ℕ
      → Directory P W D F
      → W
      → Outcome (Option (Status × Directory P W D F × W))
  unfolding look_for leave find_mount_point add
  directory_change fuel mps name dir w = elim dir.inside [
    | none ↦ enter (find_mount_point name mps) dir w >>= λ r. ok (some r)
    | some i ↦ look_for fuel name (start i dir.path w) >>= λ r.
        ok (elim r [ none ↦ none | some s ↦ some (leave name dir s) ])
  ]

  unfoldable pub directory_get_path : Directory P W D F → Status × FilePath
  directory_get_path dir = (success, dir.path)
