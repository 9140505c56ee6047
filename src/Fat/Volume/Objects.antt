-- ===== src/Fat/Volume/Objects.antt =====
-- The list of cache objects, and the sectors that the clusters of a volume have.
use native.Mathlib.Decide.{dec_lt, ℕ_discrete}
use native.Mathlib.Nat.{add-mul}
use baby_osv.Base.{
  Bool, true, ℕ, zero, suc, ◌+◌, ◌-◌, ◌*◌, ◌/◌, ◌%◌, ◌≤◌, ◌<◌, ◌≡◌, refl, ap, ◌∙◌, sym, ◌≢◌, false,
  ◌&&◌, Option, none, some, List, [], ◌∷◌, ◌++◌, ltb, leb, ◌==◌, if◌then◌else◌, arith, update,
  update_self, update_ne, sub32, u16_mod,
}
use baby_osv.Fat.Layout.{Bpb, get_root_sector, root_sectors, get_sector_to_read}
use baby_osv.Fat.Volume.{
  Disk, Cache, sector_of, sectors_of, first_sector, find_cache, change, write_sectors,
}

abbrev pub mapped : (Cache → Cache) → Option Cache → Option Cache
mapped f none = none
mapped f (some v) = some (f v)

pub find_cache-change :
    (c d : ℕ) (f : Cache → Cache) (vs : List Cache)
    → ((v : Cache) → (f v).cluster ≡ v.cluster)
    → find_cache d (change c f vs)
      ≡ (if c == d then mapped f (find_cache d vs) else find_cache d vs)
unfolding find_cache change
find_cache-change c d f [] keeps = ground arith
find_cache-change c d f (v ∷ vs) keeps = ground (arith, keeps v, find_cache-change c d f vs keeps)

abbrev pub or_else : Option Cache → Option Cache → Option Cache
or_else none o = o
or_else (some v) o = some v

pub find_cache-append :
    (d : ℕ) (vs : List Cache) (w : Cache)
    → find_cache d (vs ++ (w ∷ []))
      ≡ or_else (find_cache d vs) (if w.cluster == d then some w else none)
unfolding find_cache
find_cache-append d [] w = refl
find_cache-append d (v ∷ vs) w = ground (arith, find_cache-append d vs w)

pub find_cache_lem :
    (d : ℕ) (vs : List Cache) {v : Cache} → find_cache d vs ≡ some v → v.cluster ≡ d
unfolding find_cache
find_cache_lem d [] e = cc
find_cache_lem d (w ∷ vs) {v} e = ground (arith, e, find_cache_lem d vs {v = v})

-- A volume with sectors of 512 bytes and fewer than 2 ^ 16 of them, whose clusters end with `top`.
pub record IsVolume (b : Bpb) (top : ℕ) : Type 0 where
  pub whole : b.bytes_per_sector ≡ 512
  pub some_sectors : 0 < b.sectors_per_cluster
  pub fits : get_root_sector b + root_sectors b + top * b.sectors_per_cluster < u16_mod

-- The root directory, or a cluster of the data area.
abbrev pub IsCluster : ℕ → ℕ → Type 0
IsCluster top c = (c ≢ 1) × (c ≤ top)

data_sector :
    (g r p : ℕ)
    → 2 ≤ p
    → g + r + p < u16_mod
    → ((g + p) % u16_mod + sub32 r 2) % u16_mod + 2 ≡ g + r + p
data_sector g r p two fits = omega arith

product_le : (a b s : ℕ) → a ≤ b → a * s ≤ b * s
product_le a b s le =
    omega (arith, ap (λ n. n * s) {x = b} {y = a + (b - a)} (omega arith), add-mul a (b - a) s)

pub sector_of-root : (b : Bpb) (top : ℕ) → IsVolume b top → sector_of b 0 ≡ get_root_sector b
unfolding sector_of get_sector_to_read
sector_of-root b top v = omega (arith, v.fits)

pub sector_of-data :
    (b : Bpb) (top c : ℕ)
    → IsVolume b top
    → 2 ≤ c
    → c ≤ top
    → sector_of b c + 2 ≡ get_root_sector b + root_sectors b + c * b.sectors_per_cluster
unfolding sector_of get_sector_to_read
sector_of-data b top c v two le =
    let not_root : (c == 0) ≡ false = ground arith in
    rw not_root (
      data_sector (get_root_sector b) (root_sectors b) (c * b.sectors_per_cluster)
        (omega (arith, product_le 2 c b.sectors_per_cluster two, v.some_sectors))
        (omega (arith, product_le c top b.sectors_per_cluster le, v.fits)))

-- The clusters lie one behind the other.
behind_it :
    (b : Bpb) (top c d : ℕ)
    → IsVolume b top
    → IsCluster top c
    → IsCluster top d
    → c < d
    → sector_of b c + sectors_of b c ≤ sector_of b d
behind_it b top c d v hc hd lt =
    let at_d = sector_of-data b top d v (omega (arith, hd.0)) hd.1 in
    elim (ℕ_discrete c 0) [
      | yes e ↦
          let root : sector_of b c ≡ get_root_sector b =
            ap (sector_of b) e ∙ sector_of-root b top v in
          let count : sectors_of b c ≡ root_sectors b =
            ap (sectors_of b) e ∙ ap (λ n. b.root_entries_count * 32 / n) (sym v.whole) in
          omega (
            arith,
            at_d,
            root,
            count,
            product_le 2 d b.sectors_per_cluster (omega (arith, hd.0)),
            v.some_sectors,
          )
      | no ne ↦
          let at_c = sector_of-data b top c v (omega (arith, hc.0)) hc.1 in
          let count : sectors_of b c ≡ b.sectors_per_cluster = ground arith in
          omega (
            arith,
            at_d,
            at_c,
            count,
            product_le (c + 1) d b.sectors_per_cluster (omega arith),
            add-mul c 1 b.sectors_per_cluster,
          )
    ]

-- No sector belongs to two clusters.
pub sectors_apart :
    (b : Bpb) (top c d s t : ℕ)
    → IsVolume b top
    → IsCluster top c
    → IsCluster top d
    → c ≢ d
    → s < sectors_of b c
    → t < sectors_of b d
    → sector_of b c + s ≢ sector_of b d + t
sectors_apart b top c d s t v hc hd ne ls lt e = elim (dec_lt c d) [
  | yes p ↦ omega (arith, behind_it b top c d v hc hd p)
  | no q ↦ omega (arith, behind_it b top d c v hd hc (omega arith))
]

write_step :
    (n a sector : ℕ) (buffer : ℕ → ℕ) (disk : Disk) (s o : ℕ)
    → (if leb (sector + (a + 1)) s && ltb s (sector + (a + 1) + n)
        then buffer ((s - sector) * 512 + o)
        else update disk (sector + a) (λ p. buffer (a * 512 + p)) s o)
      ≡ (if leb (sector + a) s && ltb s (sector + a + suc n)
          then buffer ((s - sector) * 512 + o)
          else disk s o)
write_step n a sector buffer disk s o = elim (ℕ_discrete (sector + a) s) [
  | yes e ↦
      let hit : update disk (sector + a) (λ p. buffer (a * 512 + p)) s o ≡ buffer (a * 512 + o) =
        ap (λ t. update disk (sector + a) (λ p. buffer (a * 512 + p)) t o) (sym e)
        ∙ ap (λ h. h o) (update_self disk (sector + a) (λ p. buffer (a * 512 + p))) in
      let index : buffer (a * 512 + o) ≡ buffer ((s - sector) * 512 + o) =
        ap buffer (omega (arith, e)) in
      ground (arith, hit, index, e)
  | no ne ↦
      let miss : update disk (sector + a) (λ p. buffer (a * 512 + p)) s o ≡ disk s o =
        ap (λ h. h o) (update_ne disk (sector + a) s (λ p. buffer (a * 512 + p)) ne) in
      ground (arith, miss, ne)
]

-- Where the partition takes every write.
pub write_sectors_lem :
    (accepts : ℕ → Bool) (n a sector : ℕ) (buffer : ℕ → ℕ) (disk : Disk) (s o : ℕ)
    → ((t : ℕ) → accepts t ≡ true)
    → write_sectors accepts n a sector buffer disk s o ≡ (
        if leb (sector + a) s && ltb s (sector + a + n)
        then buffer ((s - sector) * 512 + o)
        else disk s o)
unfolding write_sectors
write_sectors_lem accepts zero a sector buffer disk s o all = ground arith
write_sectors_lem accepts (suc n) a sector buffer disk s o all =
    let taken = update disk (sector + a) (λ p. buffer (a * 512 + p)) in
    ap (λ b. write_sectors accepts n (a + 1) sector buffer (if b then taken else disk) s o)
      (all (sector + a))
    ∙ write_sectors_lem accepts n (a + 1) sector buffer taken s o all
    ∙ write_step n a sector buffer disk s o

pub first_sector_lem : (b : Bpb) (top c : ℕ) → IsVolume b top → first_sector b c ≡ sector_of b c
unfolding first_sector
first_sector_lem b top c v = elim (ℕ_discrete c 0) [
  | yes e ↦
      let root : sector_of b c ≡ get_root_sector b = ap (sector_of b) e ∙ sector_of-root b top v in
      ground (arith, root)
  | no ne ↦ unfold sector_of in ground arith
]
