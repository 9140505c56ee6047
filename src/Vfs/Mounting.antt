-- ===== src/Vfs/Mounting.antt =====
-- A file system that is mounted, and the way into it.
use baby_osv.Base.{ℕ, ◌≡◌, true, false, Option, List, [], ◌∷◌}
use baby_osv.Vfs.{succeeded, FsInfo, Vfs, other_type}

module _ {P W D F : Type 0} where
  -- `Mount` passes the file systems by: each is of another type than the one asked for, or its `Probe` fails.
  -- The last two arguments are the world before and behind the calls of `Probe`.
  pub data Refused (fs_type : Option (List ℕ)) (part : P)
      : List (FsInfo P W D F) → W → W → Type 0 where
    no_more : (w : W) → Refused fs_type part [] w w
    of_other_type :
        (fs : FsInfo P W D F) (fss : List (FsInfo P W D F)) (w w' : W)
        → other_type fs_type fs.name ≡ true
        → Refused fs_type part fss w w'
        → Refused fs_type part (fs ∷ fss) w w'
    not_there :
        (fs : FsInfo P W D F) (fss : List (FsInfo P W D F)) (w w' : W)
        → other_type fs_type fs.name ≡ false
        → succeeded (fs.probe part w).0 ≡ false
        → Refused fs_type part fss (fs.probe part w).1 w'
        → Refused fs_type part (fs ∷ fss) w w'
