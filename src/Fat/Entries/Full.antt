-- ===== src/Fat/Entries/Full.antt =====
-- A directory with no free entry.
use baby_osv.Base.{
  List, ℕ, zero, suc, ◌≡◌, refl, ap, ◌∙◌, ◌≢◌, Bool, false, Option, none, some, arith, ◌==◌,
  if◌then◌else◌,
}
use baby_osv.Fat.Table.{fat12, Bytes, get_next_cluster}
use baby_osv.Fat.Volume.{Info}
use baby_osv.Fat.Directory.{Directory, directory_rewind}
use baby_osv.Fat.Entries.{
  Place, seek, last_cluster, extend_directory, grow_if_full, grow_behind, file_create,
  directory_add_entry, add_if_room, always, new_entry,
}

-- On FAT12, `GetNextCluster` never returns `CLUSTER_LAST`.
next_not_last : (fat : Bytes) (c : ℕ) → (get_next_cluster fat12 fat c == 0xff8) ≡ false
unfolding get_next_cluster
next_not_last fat c = ground arith

last_cluster-none : (fuel : ℕ) (fat : Bytes) (c : ℕ) → last_cluster fuel fat12 fat c ≡ none
unfolding last_cluster
last_cluster-none zero fat c = refl
last_cluster-none (suc fuel) fat c =
    rw (last_cluster, next_not_last fat c)
      (last_cluster-none fuel fat (get_next_cluster fat12 fat c))

-- On FAT12, `FileCreate` in a directory other than the root, in which the search for a free entry comes
-- to the end, never returns: after any number of rounds its loops go on.
pub file_create-none :
    (fuel : ℕ) (name : List ℕ) (i j : Info) (dir d : Directory)
    → seek fuel (directory_rewind i dir).0 (directory_rewind i dir).1 ≡ some (false, j, d)
    → j.type ≡ fat12
    → d.root_cluster ≢ 0
    → file_create fuel name i dir ≡ none
unfolding file_create directory_add_entry extend_directory
file_create-none fuel name i j dir d full type below =
    let added = λ (x : Option Place). always (add_if_room fuel (new_entry name 0 0) x) in
    let not_root : (d.root_cluster == 0) ≡ false = ground arith in
    let endless : last_cluster fuel j.type j.fat d.root_cluster ≡ none =
      ap (λ t. last_cluster fuel t j.fat d.root_cluster) type
      ∙ last_cluster-none fuel j.fat d.root_cluster in
    ap (λ x. added (grow_if_full fuel x)) full
    ∙ ap
        (λ (b : Bool). added (
          if b
          then some (false, j, d)
          else grow_behind (last_cluster fuel j.type j.fat d.root_cluster) j d))
        not_root
    ∙ ap (λ x. added (grow_behind x j d)) endless
