-- ===== src/Fat/Layout/Sectors.antt =====
-- Which sectors the clusters are read from.
use native.Mathlib.Nat.{add-mul}
use baby_osv.Base.{ℕ, ◌+◌, ◌-◌, ◌*◌, ◌%◌, ◌≤◌, ◌<◌, ◌≡◌, ap, ◌∙◌, false, arith, u16_mod, sub32}
use baby_osv.Fat.Layout.{
  Bpb, get_root_sector, root_sectors, get_first_data_sector, get_sector_to_read,
}

-- The first sector of a cluster on a FAT volume: the clusters fill the data area from cluster 2 on.
abbrev pub start_of : Bpb → ℕ → ℕ
start_of b cluster = get_first_data_sector b + (cluster - 2) * b.sectors_per_cluster

shifted :
    (g r p q s : ℕ)
    → p ≡ q + 2 * s
    → 0 < s
    → g + r + p < u16_mod
    → ((g + p) % u16_mod + sub32 r 2) % u16_mod ≡ (g + r) % u16_mod + q + 2 * (s - 1)
shifted g r p q s e pos fits = omega arith

two_less : (cluster s : ℕ) → 2 ≤ cluster → cluster * s ≡ (cluster - 2) * s + 2 * s
two_less cluster s two =
    ap (λ n. n * s) {y = cluster - 2 + 2} (omega arith) ∙ add-mul (cluster - 2) 2 s

-- On a volume of less than 2 ^ 16 sectors with a positive number of sectors for each cluster,
-- `GetSectorToRead` gives for a cluster behind the reserved two a sector that is twice the number of
-- sectors of a cluster less one behind the start of the cluster: the start itself exactly if a cluster
-- has one sector.
pub get_sector_to_read_lem :
    (b : Bpb) (cluster : ℕ)
    → 2 ≤ cluster
    → 0 < b.sectors_per_cluster
    → get_root_sector b + root_sectors b + cluster * b.sectors_per_cluster < u16_mod
    → get_sector_to_read b cluster false ≡ start_of b cluster + 2 * (b.sectors_per_cluster - 1)
unfolding get_sector_to_read get_first_data_sector
get_sector_to_read_lem b cluster two some_sectors fits =
    shifted (get_root_sector b) (root_sectors b) (cluster * b.sectors_per_cluster)
      ((cluster - 2) * b.sectors_per_cluster) b.sectors_per_cluster
      (two_less cluster b.sectors_per_cluster two) some_sectors fits
