-- ===== src/Fat/File/Calm.antt =====
-- Steps of a volume that make no object dirty.
use baby_osv.Base.{
  ℕ, ◌≡◌, refl, ap, ◌∙◌, sym, subst, ◌≢◌, ◌⊎◌, inl, inr, Bool, true, false, not, ◌&&◌, Option, none,
  some, ltb, ◌==◌, if◌then◌else◌, arith, Bool-cases, Option-cases,
}
use baby_osv.Fat.Table.{get_next_cluster, find_empty}
use baby_osv.Fat.Layout.{total_fat_entries}
use baby_osv.Fat.Volume.{
  Cache, Info, find_cache, change, get_cache, new_cache, free_cache, flush_cache, retain, release,
  clean, is_unused, extend_chain, take_empty, store_cluster,
}
use baby_osv.Fat.Volume.Objects.{find_cache-change, find_cache-append}

abbrev pub dirty_in : Option Cache → Bool
dirty_in none = false
dirty_in (some v) = v.dirty

-- Whether the cluster has an object that is dirty.
abbrev pub is_dirty : Info → ℕ → Bool
is_dirty i d = dirty_in (find_cache d i.cache_objects)

-- The step does not make the cluster's object dirty.
abbrev pub Calm : ℕ → Info → Info → Type 0
Calm d i j = is_dirty i d ≡ false → is_dirty j d ≡ false

pub through-Calm :
    (c d : ℕ) (f : Cache → Cache) (i : Info)
    → ((v : Cache) → (f v).cluster ≡ v.cluster)
    → (c ≢ d) ⊎ ((v : Cache) → v.dirty ≡ false → (f v).dirty ≡ false)
    → Calm d i (record i { cache_objects = change c f i.cache_objects })
through-Calm c d f i keeps apart h = elim (Option-cases (find_cache d i.cache_objects)) [
  | inl n ↦ ground (arith, n, find_cache-change c d f i.cache_objects keeps)
  | inr (w, e) ↦ elim apart [
    | inl ne ↦ ground (arith, ne, h, find_cache-change c d f i.cache_objects keeps)
    | inr same ↦ ground (arith, h, e, same w, find_cache-change c d f i.cache_objects keeps)
  ]
]

pub get_cache-Calm : (c d : ℕ) (i : Info) → Calm d i (get_cache c i)
unfolding get_cache new_cache
get_cache-Calm c d i h = elim (Option-cases (find_cache c i.cache_objects)) [
  | inl n ↦ rw n (ground (arith, h, find_cache-append d i.cache_objects (new_cache i c)))
  | inr (w, e) ↦ rw e (through-Calm c d retain i (λ v. refl) (inr (λ v q. q)) h)
]

pub flush_cache-Calm : (c d : ℕ) (i : Info) → Calm d i (flush_cache c i)
unfolding flush_cache
flush_cache-Calm c d i h = elim (Option-cases (find_cache c i.cache_objects)) [
  | inl n ↦ rw n h
  | inr (w, e) ↦ elim (Bool-cases w.dirty) [
    | inl q ↦ rw (e, q) (through-Calm c d clean i (λ v. refl) (inr (λ v r. refl)) h)
    | inr q ↦ rw (e, q) h
  ]
]

pub free_cache-Calm : (c d : ℕ) (i : Info) → Calm d i (free_cache (some c) i)
unfolding free_cache
free_cache-Calm c d i h =
    let freed = through-Calm c d release i (λ v. refl) (inr (λ v q. q)) h in
    elim (Bool-cases (is_unused (find_cache c (change c release i.cache_objects)))) [
      | inl e ↦ rw e (
          flush_cache-Calm c d (record i { cache_objects = change c release i.cache_objects })
            freed)
      | inr e ↦ rw e freed
    ]

pub store_cluster-objects :
    (c n : ℕ) (i : Info) → (store_cluster c n i).cache_objects ≡ i.cache_objects
unfolding store_cluster
store_cluster-objects c n i = refl

pub linked-objects :
    (b : Bool) (c n : ℕ) (i : Info)
    → (if b then store_cluster c n i else i).cache_objects ≡ i.cache_objects
linked-objects true c n i = store_cluster-objects c n i
linked-objects false c n i = refl

pub take_empty-objects :
    (parent : ℕ) (o : Option ℕ) (i : Info) {n : ℕ} {j : Info}
    → take_empty parent o i ≡ some (n, j)
    → j.cache_objects ≡ i.cache_objects
take_empty-objects parent none i e = cc
take_empty-objects parent (some index) i {n} {j} e =
    let linked = if ltb 0 parent then store_cluster parent index i else i in
    let same : store_cluster index 0xff8 linked ≡ j = cc in
    sym (ap (λ (k : Info). k.cache_objects) same)
    ∙ store_cluster-objects index 0xff8 linked
    ∙ linked-objects (ltb 0 parent) parent index i

pub extend_chain-objects :
    (parent : ℕ) (i : Info) {n : ℕ} {j : Info}
    → extend_chain parent i ≡ some (n, j)
    → j.cache_objects ≡ i.cache_objects
unfolding extend_chain
extend_chain-objects parent i {n} {j} e =
    elim (Bool-cases (ltb 0 parent && not (get_next_cluster i.type i.fat parent == 0))) [
      | inl busy ↦ absurd (ground (arith, e, busy))
      | inr free ↦
          take_empty-objects parent (find_empty i.fat (total_fat_entries i.bpb) 0) i {n = n} {j = j}
            (subst
              (λ b.
                (if b
                  then none
                  else take_empty parent (find_empty i.fat (total_fat_entries i.bpb) 0) i)
                ≡ some (n, j))
              free e)
    ]

pub same-Calm : (d : ℕ) (i j : Info) → j.cache_objects ≡ i.cache_objects → Calm d i j
same-Calm d i j e h = ap (λ l. dirty_in (find_cache d l)) e ∙ h
