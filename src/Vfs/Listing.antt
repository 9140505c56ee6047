-- ===== src/Vfs/Listing.antt =====
-- The directory outside of all file systems, read entry by entry.
use baby_osv.Base.{
  ℕ, zero, suc, ◌+◌, ◌-◌, ◌^◌, ◌<◌, ◌≡◌, ◌∙◌, refl, sym, ap, Bool, true, false, Option, none, some,
  List, [], ◌∷◌, ◌++◌, map, append_assoc, append-nil, length, length-append, arith, add32, u32_mod,
  mod_small, get_elem?,
}
use baby_osv.Vfs.{
  Status, success, undefined, succeeded, DirEntry, MountPoint, Directory, Vfs, entry_for, read_root,
  directory_open_root, directory_read, directory_rewind,
}

-- What a caller reads of an entry: whether it is valid and a directory, and its name.
abbrev pub Shown : Type 0
Shown = Bool × Bool × List ℕ

abbrev pub shown : DirEntry → Shown
shown e = (e.is_valid, e.is_directory, e.name)

abbrev in_front : Shown → Option (List Shown) → Option (List Shown)
in_front s none = none
in_front s (some ss) = some (s ∷ ss)

get_elem?-append :
    {A : Type 0} (xs : List A) (y : A) (ys : List A)
    → get_elem? (xs ++ (y ∷ ys)) (length xs) ≡ some y
get_elem?-append [] y ys = refl
get_elem?-append (x ∷ xs) y ys = get_elem?-append xs y ys

get_elem?-length : {A : Type 0} (xs : List A) → get_elem? xs (length xs) ≡ none
get_elem?-length [] = refl
get_elem?-length (x ∷ xs) = get_elem?-length xs

module _ {P W D F : Type 0} where
  abbrev after_read :
      Vfs P W D F
      → Status × DirEntry × Directory P W D F × W
      → (Vfs P W D F → Directory P W D F → DirEntry → Option (List Shown))
      → Option (List Shown)
  after_read v (status, e, dir, w) again = elim (succeeded status) [
    | true ↦ in_front (shown e) (again (record v { world = w }) dir e)
    | false ↦ some []
  ]

  -- The entries that `DirectoryRead` gives until it fails; `none`: it has not failed after `fuel` calls.
  unfoldable pub read_all : ℕ → Vfs P W D F → Directory P W D F → DirEntry → Option (List Shown)
  read_all zero v dir e = none
  read_all (suc fuel) v dir e = after_read v (directory_read v dir e) (λ u d f. read_all fuel u d f)

  read-mount_point :
      (v : Vfs P W D F) (dir : Directory P W D F) (e : DirEntry) {mp : MountPoint P W D F}
      → dir.inside ≡ none
      → get_elem? v.mount_points (add32 dir.index 1) ≡ some mp
      → directory_read v dir e
        ≡ (success, entry_for mp e, record dir { index = add32 dir.index 1 }, v.world)
  unfolding directory_read
  read-mount_point v dir e {mp} h g =
      rw (h, directory_read)
        (rw (g, read_root)
          (ap
            (λ i. (
              success,
              entry_for mp e,
              record dir { index = add32 dir.index 1; inside = i },
              v.world,
            ))
            h))

  read-end :
      (v : Vfs P W D F) (dir : Directory P W D F) (e : DirEntry)
      → dir.inside ≡ none
      → get_elem? v.mount_points (add32 dir.index 1) ≡ none
      → directory_read v dir e ≡ (undefined, e, record dir { index = add32 dir.index 1 }, v.world)
  unfolding directory_read
  read-end v dir e h g =
      rw (h, directory_read)
        (rw (g, read_root)
          (ap (λ i. (undefined, e, record dir { index = add32 dir.index 1; inside = i }, v.world))
            h))

  read_all-from :
      (ys xs : List (MountPoint P W D F)) (fuel : ℕ) (v : Vfs P W D F) (dir : Directory P W D F)
      (e : DirEntry)
      → dir.inside ≡ none
      → v.mount_points ≡ xs ++ ys
      → add32 dir.index 1 ≡ length xs
      → length xs + length ys < u32_mod
      → length ys < fuel
      → read_all fuel v dir e ≡ some (map (λ mp. (true, true, mp.name)) ys)
  unfolding read_all
  read_all-from ys xs zero v dir e h m i l f = absurd (omega (arith, f))
  read_all-from [] xs (suc fuel) v dir e h m i l f =
      let ends : get_elem? v.mount_points (add32 dir.index 1) ≡ none =
        ap (λ ps. get_elem? ps (add32 dir.index 1)) (m ∙ append-nil xs)
        ∙ (ap (get_elem? xs) i ∙ get_elem?-length xs) in
      ap (λ r. after_read v r (λ u d g. read_all fuel u d g)) (read-end v dir e h ends)
  read_all-from (y ∷ ys) xs (suc fuel) v dir e h m i l f =
      let here : get_elem? v.mount_points (add32 dir.index 1) ≡ some y =
        ap (λ ps. get_elem? ps (add32 dir.index 1)) m
        ∙ (ap (get_elem? (xs ++ (y ∷ ys))) i ∙ get_elem?-append xs y ys) in
      let next : add32 (add32 dir.index 1) 1 ≡ length (xs ++ (y ∷ [])) =
        ap (λ n. add32 n 1) i
        ∙ (mod_small (length xs + 1) u32_mod (omega (arith, l))
            ∙ sym (length-append xs (y ∷ []))) in
      ap (λ r. after_read v r (λ u d g. read_all fuel u d g)) (read-mount_point v dir e h here)
      ∙ ap (in_front (true, true, y.name)) (
          read_all-from ys (xs ++ (y ∷ [])) fuel v (record dir { index = add32 dir.index 1 })
            (entry_for y e) h (m ∙ sym (append_assoc xs (y ∷ []) ys)) next
            (omega (arith, l, length-append xs (y ∷ []))) (omega (arith, f)))

  -- Outside of all file systems, from `DirectoryOpenRoot` on and again from `DirectoryRewind` on, the calls of
  -- `DirectoryRead` give a valid entry of a directory for each mount point, with its name and in the order in
  -- which they were mounted, and then fail; one call more than there are mount points is enough. The number
  -- of mount points is below 2^32.
  pub read_all-root :
      (fuel : ℕ) (v : Vfs P W D F) (dir : Directory P W D F) (e : DirEntry)
      → dir.inside ≡ none
      → length v.mount_points < 2 ^ 32
      → length v.mount_points < fuel
      → (read_all fuel v directory_open_root e
          ≡ some (map (λ mp. (true, true, mp.name)) v.mount_points))
        × (read_all fuel v (directory_rewind dir v.world).1 e
            ≡ some (map (λ mp. (true, true, mp.name)) v.mount_points))
  unfolding directory_open_root directory_rewind
  read_all-root fuel v dir e h l f = (
    read_all-from v.mount_points [] fuel v directory_open_root e refl refl refl (omega (arith, l))
        f,
    rw (h, directory_rewind)
        (read_all-from v.mount_points [] fuel v (record dir { index = 2 ^ 32 - 1 }) e h refl refl
          (omega (arith, l)) f),
  )
