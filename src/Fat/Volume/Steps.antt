-- ===== src/Fat/Volume/Steps.antt =====
-- The calls of the cache keep what is seen of every cluster.
use native.Mathlib.Decide.{ℕ_discrete}
use baby_osv.Base.{
  ℕ, ◌+◌, ◌*◌, ◌/◌, ◌≡◌, refl, ap, ◌∙◌, sym, ◌≢◌, ◌⊎◌, inl, inr, true, false, none, some, List, [],
  ◌∷◌, ◌++◌, arith, Bool-cases, Option-cases,
}
use baby_osv.Fat.Volume.{
  Cache, Info, sector_of, sectors_of, first_sector, find_cache, change, write_sectors, load,
  new_cache, get_cache, flush_cache, free_cache, retain, release, clean, is_unused,
}
use baby_osv.Fat.Volume.Objects.{find_cache-append, IsVolume, IsCluster}
use baby_osv.Fat.Volume.View.{
  absurd_found, seen, view, Sized, Transparent, Transparent-trans, Keeps, found_after, missed_after,
  found_alike, missed_alike, changed-Transparent, flush_keeps, Keeps-retain, Keeps-release,
  Keeps-clean, change-Sized,
}

pub flush_cache-dirty :
    (c : ℕ) (i : Info) {w : Cache}
    → find_cache c i.cache_objects ≡ some w
    → w.dirty ≡ true
    → flush_cache c i ≡ record i {
      disk =
          write_sectors i.accepts
            ((w.buffer_size + 511) / 512)
            0
            (sector_of i.bpb c)
            w.buffer
            i.disk;
      cache_objects = change c clean i.cache_objects;
    }
unfolding flush_cache
flush_cache-dirty c i e d = rw (e, d) refl

pub flush_cache-clean :
    (c : ℕ) (i : Info) {w : Cache}
    → find_cache c i.cache_objects ≡ some w
    → w.dirty ≡ false
    → flush_cache c i ≡ i
unfolding flush_cache
flush_cache-clean c i e d = rw (e, d) refl

pub flush_cache-none :
    (c : ℕ) (i : Info) → find_cache c i.cache_objects ≡ none → flush_cache c i ≡ i
unfolding flush_cache
flush_cache-none c i e = rw e refl

pub Transparent-refl : {top : ℕ} {i : Info} → Sized i → Transparent top i i
Transparent-refl z = record { same_bpb = refl; same_fat = refl; sized = z; views = λ d o h l. refl }

pub flush_cache-Transparent :
    (top c : ℕ) (i : Info)
    → IsVolume i.bpb top
    → IsCluster top c
    → Sized i
    → Transparent top i (flush_cache c i)
flush_cache-Transparent top c i v hc z = elim (Option-cases (find_cache c i.cache_objects)) [
  | inl n ↦ rw (flush_cache-none c i n) (Transparent-refl z)
  | inr (w, e) ↦ elim (Bool-cases w.dirty) [
    | inl d ↦ rw (flush_cache-dirty c i e d) (
        changed-Transparent top c clean i _ Keeps-clean z e (
          flush_keeps top c ((w.buffer_size + 511) / 512) i w.buffer v hc
            (omega (arith, z.sizes c w e)) z))
    | inr d ↦ rw (flush_cache-clean c i e d) (Transparent-refl z)
  ]
]

change-Transparent :
    (top c : ℕ) (f : Cache → Cache) (i : Info)
    → Keeps f
    → Sized i
    → Transparent top i (record i { cache_objects = change c f i.cache_objects })
change-Transparent top c f i k z = record {
  same_bpb = refl;
  same_fat = refl;
  sized = change-Sized c f i k z;
  views = λ d o h l. elim (Option-cases (find_cache d i.cache_objects)) [
    | inl n ↦ missed_alike i _ d o n (missed_after c d f i.cache_objects k n) refl
    | inr (w, e) ↦
        let (u, g, same) = found_after c d f i.cache_objects k e in found_alike i _ d o e g same
  ];
}

get_cache-found :
    (c : ℕ) (i : Info) {w : Cache}
    → find_cache c i.cache_objects ≡ some w
    → get_cache c i ≡ record i { cache_objects = change c retain i.cache_objects }
unfolding get_cache
get_cache-found c i e = rw e refl

get_cache-missed :
    (c : ℕ) (i : Info)
    → find_cache c i.cache_objects ≡ none
    → get_cache c i ≡ record i { cache_objects = i.cache_objects ++ (new_cache i c ∷ []) }
unfolding get_cache
get_cache-missed c i e = rw e refl

appended_found :
    (d : ℕ) (vs : List Cache) (n : Cache) {w : Cache}
    → find_cache d vs ≡ some w
    → find_cache d (vs ++ (n ∷ [])) ≡ some w
appended_found d vs n e = ground (arith, find_cache-append d vs n, e)

appended_new :
    (d : ℕ) (vs : List Cache) (n : Cache)
    → find_cache d vs ≡ none
    → n.cluster ≡ d
    → find_cache d (vs ++ (n ∷ [])) ≡ some n
appended_new d vs n e same = ground (arith, find_cache-append d vs n, e, same)

appended_none :
    (d : ℕ) (vs : List Cache) (n : Cache)
    → find_cache d vs ≡ none
    → n.cluster ≢ d
    → find_cache d (vs ++ (n ∷ [])) ≡ none
appended_none d vs n e other = ground (arith, find_cache-append d vs n, e, other)

some_size : {v w : Cache} → some v ≡ some w → v.buffer_size ≡ w.buffer_size
some_size e = cc

loaded-Sized :
    (c : ℕ) (i : Info)
    → Sized i
    → Sized (record i { cache_objects = i.cache_objects ++ (new_cache i c ∷ []) })
unfolding new_cache
loaded-Sized c i z = record {
  sizes = λ d v e. elim (Option-cases (find_cache d i.cache_objects)) [
    | inl m ↦ elim (ℕ_discrete c d) [
      | yes same ↦
          some_size (sym e ∙ appended_new d i.cache_objects (new_cache i c) m same)
          ∙ ap (λ x. sectors_of i.bpb x * 512) same
      | no other ↦ absurd (absurd_found (appended_none d i.cache_objects (new_cache i c) m other) e)
    ]
    | inr (w, h) ↦
        some_size (sym e ∙ appended_found d i.cache_objects (new_cache i c) h) ∙ z.sizes d w h
  ];
  takes_all = z.takes_all;
}

loaded-view :
    (c d o : ℕ) (i : Info)
    → view (record i { cache_objects = i.cache_objects ++ (new_cache i c ∷ []) }) d o ≡ view i d o
unfolding new_cache
loaded-view c d o i = elim (Option-cases (find_cache d i.cache_objects)) [
  | inl m ↦ elim (ℕ_discrete c d) [
    | yes same ↦
        ap (λ x. seen x (record i { cache_objects = i.cache_objects ++ (new_cache i c ∷ []) }) d o)
          (appended_new d i.cache_objects (new_cache i c) m same)
        ∙ ap (λ x. load i.disk (first_sector i.bpb x) o) same
        ∙ sym (ap (λ x. seen x i d o) m)
    | no other ↦
        missed_alike i _ d o m (appended_none d i.cache_objects (new_cache i c) m other) refl
  ]
  | inr (w, e) ↦ found_alike i _ d o e (appended_found d i.cache_objects (new_cache i c) e) refl
]

pub get_cache-Transparent : (top c : ℕ) (i : Info) → Sized i → Transparent top i (get_cache c i)
get_cache-Transparent top c i z = elim (Option-cases (find_cache c i.cache_objects)) [
  | inl n ↦ rw (get_cache-missed c i n) (record {
    same_bpb = refl;
    same_fat = refl;
    sized = loaded-Sized c i z;
    views = λ d o h l. loaded-view c d o i;
  })
  | inr (w, e) ↦ rw (get_cache-found c i e) (change-Transparent top c retain i Keeps-retain z)
]

released : ℕ → Info → Info
released c i = record i { cache_objects = change c release i.cache_objects }

free_cache-flushes :
    (c : ℕ) (i : Info)
    → (free_cache (some c) i ≡ released c i)
      ⊎ (free_cache (some c) i ≡ flush_cache c (released c i))
unfolding free_cache released
free_cache-flushes c i =
    elim (Bool-cases (is_unused (find_cache c (change c release i.cache_objects)))) [
      | inl e ↦ inr (rw e refl)
      | inr e ↦ inl (rw e refl)
    ]

pub free_cache-Transparent :
    (top c : ℕ) (i : Info)
    → IsVolume i.bpb top
    → IsCluster top c
    → Sized i
    → Transparent top i (free_cache (some c) i)
unfolding released
free_cache-Transparent top c i v hc z =
    let freed = change-Transparent top c release i Keeps-release z in
    elim (free_cache-flushes c i) [
      | inl e ↦ rw e freed
      | inr e ↦
          rw e (
            Transparent-trans freed (flush_cache-Transparent top c (released c i) v hc freed.sized))
    ]

-- On a volume with sectors of 512 bytes whose numbers fit into 16 bits, with a buffer of its cluster's size
-- in every object of the cache and a partition that takes every write, `GetCache`, `FlushCache` and
-- `FreeCache` of the root directory or a cluster of the volume change no byte of the root directory or of
-- any cluster as the code sees it, and not the table, whether the objects are dirty or not.
pub Transparent-cache :
    (top c : ℕ) (i : Info)
    → IsVolume i.bpb top
    → IsCluster top c
    → Sized i
    → Transparent top i (get_cache c i)
      × Transparent top i (flush_cache c i)
      × Transparent top i (free_cache (some c) i)
Transparent-cache top c i v hc z = (
  get_cache-Transparent top c i z,
  flush_cache-Transparent top c i v hc z,
  free_cache-Transparent top c i v hc z,
)
