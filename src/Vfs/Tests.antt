-- ===== src/Vfs/Tests.antt =====
-- A volume with a directory and a file, kept in memory; the world counts the calls of `Probe` that failed.
use baby_osv.Base.{
  ℕ, zero, suc, ◌+◌, ◌≡◌, refl, Bool, true, false, Option, none, some, List, [], ◌∷◌, ◌++◌,
  if◌then◌else◌, arith,
}
use baby_osv.Base.Outcome.{ok}
use baby_osv.Libc.{same_string}
use baby_osv.Vfs.{
  Status, success, end_of_file, undefined, DirEntry, FsInfo, MountPoint, Directory, Vfs, mount,
  directory_open_root, directory_rewind,
}
use baby_osv.FilePath.{add}
use baby_osv.Vfs.Changing.{parent_name, directory_change}
use baby_osv.Vfs.Files.{file_open, file_open_path}
use baby_osv.Vfs.Listing.{read_all, read_all-root}

abbrev new_entry : List ℕ → Bool → DirEntry
new_entry name directory = record {
  is_valid = true;
  is_directory = directory;
  is_symlink = false;
  is_hidden = false;
  size = 0;
  name = name;
}

abbrev sys : List ℕ
sys = b's' ∷ b'y' ∷ b's' ∷ []

abbrev kernel : List ℕ
kernel = b'k' ∷ []

abbrev self_name : List ℕ
self_name = b'.' ∷ []

-- Place 0 is the root, and place 1 the directory in it.
abbrev entries_of : ℕ → List DirEntry
entries_of zero = new_entry (b'a' ∷ []) false ∷ new_entry sys true ∷ []
entries_of (suc n) =
    new_entry self_name true ∷ new_entry parent_name true ∷ new_entry kernel false ∷ []

abbrev child_of : ℕ → List ℕ → Option ℕ
child_of zero name = if same_string name sys then some 1 else none
child_of (suc n) name =
    if same_string name self_name
    then some (suc n)
    else if same_string name parent_name
    then some 0
    else none

record MemoryDir : Type 0 where
  at : ℕ
  rest : List DirEntry
  last : DirEntry

abbrev read_memory : MemoryDir → ℕ → Status × DirEntry × MemoryDir × ℕ
read_memory d w = elim d.rest [
  | [] ↦ (end_of_file, d.last, d, w)
  | e ∷ es ↦ (success, e, record { at = d.at; rest = es; last = e }, w)
]

abbrev arrive_at : Option ℕ → MemoryDir → ℕ → Status × MemoryDir × ℕ
arrive_at none d w = (undefined, d, w)
arrive_at (some q) d w = (success, record { at = q; rest = entries_of q; last = d.last }, w)

abbrev memory_fs : FsInfo (Unit {0}) ℕ MemoryDir (ℕ × List ℕ)
memory_fs = record {
  name = b'm' ∷ [];
  probe = λ p w. (success, w);
  mount = λ p w. (success, 7, w);
  flush = λ p w. (success, w);
  directory_open_root =
      λ p w. (success, record { at = 0; rest = entries_of 0; last = new_entry [] false }, w);
  directory_close = λ p d w. (success, w);
  directory_read = λ p d w. read_memory d w;
  directory_rewind =
      λ p d w. (success, record { at = d.at; rest = entries_of d.at; last = d.last }, w);
  directory_follow = λ p d w. arrive_at (child_of d.at d.last.name) d w;
  directory_create = λ p d name w. (undefined, d, w);
  file_create = λ p d name w. (undefined, d, w);
  file_open = λ p d w. (success, (d.at, d.last.name), w);
  file_close = λ p g w. (success, w);
  file_read = λ p g n w. (end_of_file, [], g, w);
  file_write = λ p g bytes w. (undefined, 0, g, w);
  file_set_pointer = λ p g o w. (undefined, g, w);
  file_get_pointer = λ p g w. (undefined, 0);
}

abbrev mounted : List (MountPoint (Unit {0}) ℕ MemoryDir (ℕ × List ℕ))
mounted = record { name = b'd' ∷ []; fs_info = memory_fs; fs_priv = 7 } ∷ []

abbrev in_place : ℕ → MemoryDir
in_place n = record { at = n; rest = []; last = new_entry [] false }

mounts :
    (mount
      ((b'p' ∷ [], tt) ∷ [])
      (memory_fs ∷ [])
      (b'p' ∷ [])
      (b'd' ∷ [])
      none
      (record { mount_points = []; world = 0 })).1.mount_points
    ≡ mounted
unfolding mount
mounts = refl

-- A file that is not there: what the directory stands on at its end is opened.
opens_another :
    file_open_path 9 mounted (b'/' ∷ b'd' ∷ b'/' ∷ b'z' ∷ []) 5
    ≡ ok (some (success, some (record { fs_info = memory_fs; fs_priv = 7; fs_file = (0, sys) }), 5))
unfolding file_open_path file_open directory_change
opens_another = refl

-- In a directory with an entry `.` the change to it does not end.
changes_for_ever :
    directory_change 9 mounted self_name
      (record {
        index = 0;
        inside = some (record { fs_info = memory_fs; fs_priv = 7; fs_dir = in_place 1 });
        path = [];
      })
      5
    ≡ ok none
unfolding directory_change add
changes_for_ever = refl

-- A file system that finds nothing.
abbrev other_fs : FsInfo (Unit {0}) ℕ MemoryDir (ℕ × List ℕ)
other_fs = record memory_fs { name = b'o' ∷ []; probe = λ p w. (undefined, w + 1) }

abbrev unmounted : Vfs (Unit {0}) ℕ MemoryDir (ℕ × List ℕ)
unmounted = record { mount_points = []; world = 5 }

abbrev outside : Directory (Unit {0}) ℕ MemoryDir (ℕ × List ℕ)
outside = record { index = 3; inside = none; path = [] }

abbrev two : Vfs (Unit {0}) ℕ MemoryDir (ℕ × List ℕ)
two = record {
  mount_points = mounted ++ (record { name = kernel; fs_info = other_fs; fs_priv = 2 } ∷ []);
  world = 5;
}

read_all-root_example :
    (read_all 3 two directory_open_root (new_entry [] false)
      ≡ some ((true, true, b'd' ∷ []) ∷ (true, true, kernel) ∷ []))
    × (read_all 3 two (directory_rewind outside 5).1 (new_entry [] false)
        ≡ some ((true, true, b'd' ∷ []) ∷ (true, true, kernel) ∷ []))
read_all-root_example =
    read_all-root 3 two outside (new_entry [] false) refl (omega arith) (omega arith)
