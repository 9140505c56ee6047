-- ===== src/Fat/Volume/View.antt =====
-- What a cluster holds, as the code sees it: the cache object's buffer, or the disk if there is none.
use native.Mathlib.Decide.{ℕ_discrete}
use baby_osv.Base.{
  true, ℕ, ◌+◌, ◌-◌, ◌*◌, ◌/◌, ◌%◌, ◌<◌, ◌≡◌, refl, ap, ◌∙◌, sym, subst, ◌≢◌, inl, inr, false, ◌&&◌,
  Option, none, some, List, ltb, leb, arith, Option-cases,
}
use baby_osv.Fat.Layout.{Bpb}
use baby_osv.Fat.Volume.{
  Disk, Cache, Info, sector_of, sectors_of, first_sector, find_cache, change, write_sectors, load,
  retain, release, clean,
}
use baby_osv.Fat.Volume.Objects.{
  find_cache-change, IsVolume, IsCluster, sectors_apart, write_sectors_lem, first_sector_lem,
}

abbrev pub seen : Option Cache → Info → ℕ → ℕ → ℕ
seen none i d o = load i.disk (first_sector i.bpb d) o
seen (some v) i d o = v.buffer o

-- The bytes of a cluster.
abbrev pub view : Info → ℕ → ℕ → ℕ
view i d o = seen (find_cache d i.cache_objects) i d o

-- Every object has a buffer for the whole cluster, and the partition takes every write.
pub record Sized (i : Info) : Type 0 where
  pub sizes :
      (d : ℕ) (v : Cache)
      → find_cache d i.cache_objects ≡ some v
      → v.buffer_size ≡ sectors_of i.bpb d * 512
  pub takes_all : (s : ℕ) → i.accepts s ≡ true

-- The step changes no byte of any cluster, and not the table.
pub record Transparent (top : ℕ) (i j : Info) : Type 0 where
  pub same_bpb : j.bpb ≡ i.bpb
  pub same_fat : j.fat ≡ i.fat
  pub sized : Sized j
  pub views : (d o : ℕ) → IsCluster top d → o < sectors_of i.bpb d * 512 → view j d o ≡ view i d o

pub Transparent-trans :
    {top : ℕ} {i j k : Info} → Transparent top i j → Transparent top j k → Transparent top i k
Transparent-trans {i} a b = record {
  same_bpb = b.same_bpb ∙ a.same_bpb;
  same_fat = b.same_fat ∙ a.same_fat;
  sized = b.sized;
  views = λ d o c l.
      b.views d o c (subst (λ (p : Bpb). o < sectors_of p d * 512) (sym a.same_bpb) l)
      ∙ a.views d o c l;
}

-- A write through a pointer that keeps buffers changes nothing that is seen.
abbrev pub Keeps : (Cache → Cache) → Type 0
Keeps f =
    (v : Cache)
    → ((f v).cluster ≡ v.cluster) × ((f v).buffer ≡ v.buffer) × ((f v).buffer_size ≡ v.buffer_size)

pub change-Sized :
    (c : ℕ) (f : Cache → Cache) (i : Info)
    → Keeps f
    → Sized i
    → Sized (record i { cache_objects = change c f i.cache_objects })
change-Sized c f i k z = record {
  sizes = λ d v e. elim (Option-cases (find_cache d i.cache_objects)) [
    | inl n ↦ absurd (ground (arith, e, n, find_cache-change c d f i.cache_objects (λ w. (k w).0)))
    | inr (w, h) ↦ ground (
      arith,
      e,
      h,
      find_cache-change c d f i.cache_objects (λ u. (k u).0),
      (k w).2,
      z.sizes d w h,
    )
  ];
  takes_all = z.takes_all;
}

pub found_after :
    (c d : ℕ) (f : Cache → Cache) (vs : List Cache) {w : Cache}
    → Keeps f
    → find_cache d vs ≡ some w
    → (u : Cache) × (find_cache d (change c f vs) ≡ some u) × (u.buffer ≡ w.buffer)
found_after c d f vs {w} k e = elim (ℕ_discrete c d) [
  | yes same ↦ (f w, ground (arith, find_cache-change c d f vs (λ u. (k u).0), e, same), (k w).1)
  | no other ↦ (w, ground (arith, find_cache-change c d f vs (λ u. (k u).0), e, other), refl)
]

pub missed_after :
    (c d : ℕ) (f : Cache → Cache) (vs : List Cache)
    → Keeps f
    → find_cache d vs ≡ none
    → find_cache d (change c f vs) ≡ none
missed_after c d f vs k e = ground (arith, find_cache-change c d f vs (λ u. (k u).0), e)

-- Two states in which the same cluster is seen, found and missed alike.
pub found_alike :
    (i j : Info) (d o : ℕ) {u w : Cache}
    → find_cache d i.cache_objects ≡ some w
    → find_cache d j.cache_objects ≡ some u
    → u.buffer ≡ w.buffer
    → view j d o ≡ view i d o
found_alike i j d o e g same =
    ap (λ x. seen x j d o) g ∙ ap (λ b. b o) same ∙ sym (ap (λ x. seen x i d o) e)

pub missed_alike :
    (i j : Info) (d o : ℕ)
    → find_cache d i.cache_objects ≡ none
    → find_cache d j.cache_objects ≡ none
    → load j.disk (first_sector j.bpb d) o ≡ load i.disk (first_sector i.bpb d) o
    → view j d o ≡ view i d o
missed_alike i j d o e g same = ap (λ x. seen x j d o) g ∙ same ∙ sym (ap (λ x. seen x i d o) e)

pub absurd_found : {o : Option Cache} {w : Cache} → o ≡ none → o ≡ some w → ⊥
absurd_found n e = cc

-- What a write to the disk through `change` must keep.
abbrev pub KeepsOthers : ℕ → ℕ → Info → Disk → Type 0
KeepsOthers top c i disk =
    (d o : ℕ)
    → IsCluster top d
    → c ≢ d
    → o < sectors_of i.bpb d * 512
    → load disk (first_sector i.bpb d) o ≡ load i.disk (first_sector i.bpb d) o

pub changed-Transparent :
    (top c : ℕ) (f : Cache → Cache) (i : Info) (disk : Disk) {w : Cache}
    → Keeps f
    → Sized i
    → find_cache c i.cache_objects ≡ some w
    → KeepsOthers top c i disk
    → Transparent top i (record i { disk = disk; cache_objects = change c f i.cache_objects })
changed-Transparent top c f i disk k z here others = record {
  same_bpb = refl;
  same_fat = refl;
  sized =
      let changed = change-Sized c f i k z in
      record { sizes = changed.sizes; takes_all = z.takes_all };
  views = λ d o h l. elim (Option-cases (find_cache d i.cache_objects)) [
    | inl n ↦ missed_alike i _ d o n (missed_after c d f i.cache_objects k n) (
        others d o h
          (λ same. absurd_found n (ap (λ t. find_cache t i.cache_objects) (sym same) ∙ here)) l)
    | inr (w, e) ↦
        let (u, g, same) = found_after c d f i.cache_objects k e in found_alike i _ d o e g same
  ];
}

pub flush_keeps :
    (top c n : ℕ) (i : Info) (buffer : ℕ → ℕ)
    → IsVolume i.bpb top
    → IsCluster top c
    → n ≡ sectors_of i.bpb c
    → Sized i
    → KeepsOthers top c i (write_sectors i.accepts n 0 (sector_of i.bpb c) buffer i.disk)
flush_keeps top c n i buffer v hc count z d o hd ne l =
    write_sectors_lem i.accepts n 0 (sector_of i.bpb c) buffer i.disk
      (first_sector i.bpb d + o / 512) (o % 512) z.takes_all
    ∙ ground (arith, outside)
  where
    outside :
        (leb (sector_of i.bpb c + 0) (first_sector i.bpb d + o / 512)
          && ltb (first_sector i.bpb d + o / 512) (sector_of i.bpb c + 0 + n))
        ≡ false
    outside =
        let first = first_sector_lem i.bpb top d v in
        let apart =
          sectors_apart i.bpb top c d (first_sector i.bpb d + o / 512 - sector_of i.bpb c) (o / 512)
            v hc hd ne in
        ground (arith, first, apart, count, l)

pub Keeps-retain : Keeps retain
Keeps-retain v = (refl, refl, refl)

pub Keeps-release : Keeps release
Keeps-release v = (refl, refl, refl)

pub Keeps-clean : Keeps clean
Keeps-clean v = (refl, refl, refl)
