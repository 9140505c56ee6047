-- ===== src/Fat/Volume/Saved.antt =====
-- `Flush` brings what is seen to the disk.
use native.Mathlib.Decide.{ℕ_discrete}
use baby_osv.Base.{
  ℕ, ◌+◌, ◌-◌, ◌*◌, ◌/◌, ◌%◌, ◌<◌, ◌≡◌, refl, ap, ◌∙◌, sym, subst, inl, inr, true, false, none,
  some, List, [], ◌∷◌, arith, Bool-cases, Option-cases,
}
use baby_osv.Fat.Layout.{Bpb}
use baby_osv.Fat.Volume.{
  Cache, Info, sector_of, sectors_of, first_sector, find_cache, change, write_sectors, load,
  flush_cache, clean, flush_each, flush,
}
use baby_osv.Fat.Volume.Objects.{
  find_cache-change, IsVolume, IsCluster, write_sectors_lem, first_sector_lem,
}
use baby_osv.Fat.Volume.View.{
  seen, view, Sized, Transparent, Transparent-trans, flush_keeps, Keeps-clean, found_after,
}
use baby_osv.Fat.Volume.Steps.{
  flush_cache-dirty, flush_cache-clean, flush_cache-none, flush_cache-Transparent, Transparent-refl,
}

-- The disk holds what is seen of the cluster.
abbrev pub Saved : Info → ℕ → Type 0
Saved i d =
    (o : ℕ) → o < sectors_of i.bpb d * 512 → load i.disk (first_sector i.bpb d) o ≡ view i d o

-- An object that is not dirty holds what the disk holds.
abbrev pub Tidy : ℕ → Info → Type 0
Tidy top i =
    (d : ℕ) (v : Cache)
    → IsCluster top d
    → find_cache d i.cache_objects ≡ some v
    → v.dirty ≡ false
    → Saved i d

-- A cluster without an object is seen on the disk.
missed-Saved : (i : Info) (d : ℕ) → find_cache d i.cache_objects ≡ none → Saved i d
missed-Saved i d n o l = sym (ap (λ x. seen x i d o) n)

written_back :
    (top c : ℕ) (i : Info) (w : Cache)
    → IsVolume i.bpb top
    → w.buffer_size ≡ sectors_of i.bpb c * 512
    → Sized i
    → (o : ℕ) → o < sectors_of i.bpb c * 512
    → load
        (write_sectors i.accepts
          ((w.buffer_size + 511) / 512)
          0
          (sector_of i.bpb c)
          w.buffer
          i.disk)
        (first_sector i.bpb c)
        o
      ≡ w.buffer o
written_back top c i w v size z o l =
    let first = first_sector_lem i.bpb top c v in
    let place : w.buffer ((first_sector i.bpb c + o / 512 - sector_of i.bpb c) * 512 + o % 512)
        ≡ w.buffer o =
      ap w.buffer (omega (arith, first)) in
    write_sectors_lem i.accepts ((w.buffer_size + 511) / 512) 0 (sector_of i.bpb c) w.buffer i.disk
      (first_sector i.bpb c + o / 512) (o % 512) z.takes_all
    ∙ ground (arith, first, size, l, place)

-- Where a dirty object is flushed.
module _ (top c : ℕ) (i : Info) {w : Cache} (e : find_cache c i.cache_objects ≡ some w)
    (d : w.dirty ≡ true) where
  flushed : Info
  flushed = record i {
    disk =
        write_sectors i.accepts ((w.buffer_size + 511) / 512) 0 (sector_of i.bpb c) w.buffer i.disk;
    cache_objects = change c clean i.cache_objects;
  }

  flushed-Saved : IsVolume i.bpb top → Sized i → Saved flushed c
  unfolding flushed
  flushed-Saved v z o l =
      let (u, g, same) = found_after c c clean i.cache_objects Keeps-clean e in
      written_back top c i w v (z.sizes c w e) z o l
      ∙ sym (ap (λ b. b o) same)
      ∙ sym (ap (λ x. seen x flushed c o) g)

  flushed-Transparent : IsVolume i.bpb top → IsCluster top c → Sized i → Transparent top i flushed
  unfolding flushed
  flushed-Transparent v hc z =
      subst (Transparent top i) (flush_cache-dirty c i e d) (flush_cache-Transparent top c i v hc z)

  others-Saved :
      (k : ℕ)
      → IsVolume i.bpb top
      → IsCluster top c
      → IsCluster top k
      → Sized i
      → Saved i k
      → Saved flushed k
  unfolding flushed
  others-Saved k v hc hk z s = elim (ℕ_discrete c k) [
    | yes same ↦ subst (Saved flushed) same (flushed-Saved v z)
    | no other ↦ λ o l.
        flush_keeps top c ((w.buffer_size + 511) / 512) i w.buffer v hc
          (omega (arith, z.sizes c w e)) z k o hk other l
        ∙ s o l
        ∙ sym ((flushed-Transparent v hc z).views k o hk l)
  ]

  flushed-Tidy : IsVolume i.bpb top → IsCluster top c → Sized i → Tidy top i → Tidy top flushed
  unfolding flushed
  flushed-Tidy v hc z t k u hk h q = elim (ℕ_discrete c k) [
    | yes same ↦ subst (Saved flushed) same (flushed-Saved v z)
    | no other ↦ others-Saved k v hc hk z (
        t k u hk (ground (arith, find_cache-change c k clean i.cache_objects (λ x. refl), h, other))
          q)
  ]

-- What one flush does to what is saved.
record Saves (top c : ℕ) (i j : Info) : Type 0 where
  itself : Saved j c
  others : (k : ℕ) → IsCluster top k → Saved i k → Saved j k
  tidy : Tidy top j

flush_cache-Saves :
    (top c : ℕ) (i : Info)
    → IsVolume i.bpb top
    → IsCluster top c
    → Sized i
    → Tidy top i
    → Saves top c i (flush_cache c i)
unfolding flushed
flush_cache-Saves top c i v hc z t = elim (Option-cases (find_cache c i.cache_objects)) [
  | inl n ↦
      rw (flush_cache-none c i n)
        (record { itself = missed-Saved i c n; others = λ k hk s. s; tidy = t })
  | inr (w, e) ↦ elim (Bool-cases w.dirty) [
    | inl d ↦ rw (flush_cache-dirty c i e d) (record {
      itself = flushed-Saved top c i e d v z;
      others = λ k hk s. others-Saved top c i e d k v hc hk z s;
      tidy = flushed-Tidy top c i e d v hc z t;
    })
    | inr d ↦
        rw (flush_cache-clean c i e d)
          (record { itself = t c w hc e d; others = λ k hk s. s; tidy = t })
  ]
]

-- The objects are of clusters of the volume.
abbrev pub AllClusters : ℕ → List Cache → Type 0
AllClusters top [] = Unit {0}
AllClusters top (v ∷ vs) = IsCluster top v.cluster × AllClusters top vs

-- What a loop of flushes does: the objects of the list are saved, and what was saved stays so.
record AllSaved (top : ℕ) (vs : List Cache) (i j : Info) : Type 0 where
  listed : (k : ℕ) (v : Cache) → IsCluster top k → find_cache k vs ≡ some v → Saved j k
  stays : (k : ℕ) → IsCluster top k → Saved i k → Saved j k
  transparent : Transparent top i j

flush_each-AllSaved :
    (top : ℕ) (vs : List Cache) (i : Info)
    → IsVolume i.bpb top
    → AllClusters top vs
    → Sized i
    → Tidy top i
    → AllSaved top vs i (flush_each vs i)
unfolding flush_each find_cache
flush_each-AllSaved top [] i v a z t = record {
  listed = λ k w hk e. cc;
  stays = λ k hk s. s;
  transparent = Transparent-refl z;
}
flush_each-AllSaved top (w ∷ ws) i v (hw, a) z t =
    let first = flush_cache-Saves top w.cluster i v hw z t in
    let step = flush_cache-Transparent top w.cluster i v hw z in
    let rest =
      flush_each-AllSaved top ws (flush_cache w.cluster i)
        (subst (λ (b : Bpb). IsVolume b top) (sym step.same_bpb) v) a step.sized first.tidy in
    record {
      listed = λ k u hk e. elim (ℕ_discrete w.cluster k) [
        | yes same ↦ rest.stays k hk (subst (Saved (flush_cache w.cluster i)) same first.itself)
        | no other ↦ rest.listed k u hk (ground (arith, e, other))
      ];
      stays = λ k hk s. rest.stays k hk (first.others k hk s);
      transparent = Transparent-trans step rest.transparent;
    }

-- On a volume with sectors of 512 bytes whose numbers fit into 16 bits, where the objects of the cache are of
-- the root directory and clusters of the volume and have buffers of their size, where those that are not
-- dirty hold what the disk holds, and where the partition takes every write: after `Flush` the disk holds,
-- for the root directory and every cluster, the bytes that the code saw before, and the code sees the same.
pub flush-Saved :
    (top : ℕ) (i : Info)
    → IsVolume i.bpb top
    → AllClusters top i.cache_objects
    → Sized i
    → Tidy top i
    → Transparent top i (flush i)
      × ((k o : ℕ)
          → IsCluster top k
          → o < sectors_of i.bpb k * 512
          → load (flush i).disk (first_sector i.bpb k) o ≡ view i k o)
unfolding flush
flush-Saved top i v a z t =
    let all = flush_each-AllSaved top i.cache_objects i v a z t in
    (all.transparent, λ k o hk l. brought all k hk o l)
  where
    brought :
        AllSaved top i.cache_objects i (flush_each i.cache_objects i)
        → (k : ℕ) → IsCluster top k
        → (o : ℕ) → o < sectors_of i.bpb k * 512
        → load (flush_each i.cache_objects i).disk (first_sector i.bpb k) o ≡ view i k o
    brought all k hk o l =
        let same = all.transparent.same_bpb in
        let saved : Saved (flush_each i.cache_objects i) k =
          elim (Option-cases (find_cache k i.cache_objects)) [
            | inl n ↦ all.stays k hk (missed-Saved i k n)
            | inr (w, e) ↦ all.listed k w hk e
          ] in
        ap (λ (b : Bpb). load (flush_each i.cache_objects i).disk (first_sector b k) o) (sym same)
        ∙ saved o (subst (λ (b : Bpb). o < sectors_of b k * 512) (sym same) l)
        ∙ all.transparent.views k o hk l
