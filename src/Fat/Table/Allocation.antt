-- ===== src/Fat/Table/Allocation.antt =====
-- `AddCluster`: which cluster it takes, and which entries it changes.
use native.Mathlib.Decide.{ℕ_discrete}
use baby_osv.Base.{
  ℕ, zero, suc, ◌+◌, ◌≤◌, ◌<◌, ◌≡◌, refl, ap, ◌∙◌, sym, subst, ◌≢◌, ◌⊎◌, inl, inr, false, not, none,
  some, arith, ltb, ◌==◌, ◌&&◌, if◌then◌else◌, Bool-cases, Option-cases, mod_small, u16_mod,
}
use baby_osv.Fat.Table.{
  next_of, Bytes, fat12, set_cluster, entry, get_next_cluster, find_empty, add_cluster, Added, link,
  end_is_zero,
}
use baby_osv.Fat.Table.Entry.{AllBytes, max_cluster, entry-at, set_cluster_lem}

-- On FAT12, `GetNextCluster` reads the entry.
pub get_next_cluster-entry :
    (fat : Bytes) (c : ℕ)
    → 2 ≤ c
    → c < max_cluster
    → get_next_cluster fat12 fat c ≡ end_is_zero 0xff8 (entry fat c)
unfolding get_next_cluster
get_next_cluster-entry fat c lo hi =
    let plain : ltb c 2 ≡ false = ground arith in
    ap (next_of fat12 fat) (mod_small c u16_mod (omega (arith, hi)))
    ∙ rw plain (ap (end_is_zero 0xff8) (sym (entry-at fat c hi)))

-- On FAT12, what `SetCluster` stores `GetNextCluster` reads, with an end mark read as 0; what it reads
-- for any other cluster does not change.
pub get_next_cluster-set_cluster :
    (fat : Bytes) (c d next : ℕ)
    → AllBytes fat
    → c < max_cluster
    → d < max_cluster
    → 2 ≤ d
    → next < 4096
    → get_next_cluster fat12 (set_cluster fat c next) d
      ≡ (if c == d then end_is_zero 0xff8 next else get_next_cluster fat12 fat d)
get_next_cluster-set_cluster fat c d next bytes hc hd two hn =
    let entries = (set_cluster_lem fat c next bytes hc hn).0 d hd in
    get_next_cluster-entry (set_cluster fat c next) d two hd
    ∙ ap (end_is_zero 0xff8) entries
    ∙ spread
  where
    spread :
        end_is_zero 0xff8 (if c == d then next else entry fat d)
        ≡ (if c == d then end_is_zero 0xff8 next else get_next_cluster fat12 fat d)
    spread = elim (Bool-cases (c == d)) [
      | inl e ↦ rw e
      | inr e ↦ rw e (sym (get_next_cluster-entry fat d two hd))
    ]

-- The first empty entry at or behind `index`.
pub record FirstEmpty (fat : Bytes) (index left found : ℕ) : Type 0 where
  from : index ≤ found
  below : found < index + left
  empty : entry fat found ≡ 0
  first : (j : ℕ) → index ≤ j → j < found → entry fat j ≢ 0

pub find_empty-FirstEmpty :
    (fat : Bytes) (left index : ℕ) {found : ℕ}
    → find_empty fat left index ≡ some found
    → FirstEmpty fat index left found
unfolding find_empty
find_empty-FirstEmpty fat zero index e = cc
find_empty-FirstEmpty fat (suc left) index {found} e = elim (ℕ_discrete (entry fat index) 0) [
  | yes hit ↦
      let here : index ≡ found = ground arith in
      record {
        from = omega arith;
        below = omega arith;
        empty = ap (entry fat) (sym here) ∙ hit;
        first = λ j a b. absurd (omega arith);
      }
  | no miss ↦
      let r = find_empty-FirstEmpty fat left (index + 1) {found = found} (ground arith) in
      record {
        from = omega (arith, r.from);
        below = omega (arith, r.below);
        empty = r.empty;
        first = λ j a b. elim (ℕ_discrete index j) [
          | yes here ↦ subst (λ n. entry fat n ≢ 0) here miss
          | no behind ↦ r.first j (omega arith) b
        ];
      }
]

find_empty-none :
    (fat : Bytes) (left index : ℕ)
    → find_empty fat left index ≡ none
    → (j : ℕ) → index ≤ j
    → j < index + left
    → entry fat j ≢ 0
unfolding find_empty
find_empty-none fat zero index e j a b = absurd (omega arith)
find_empty-none fat (suc left) index e j a b = elim (ℕ_discrete (entry fat index) 0) [
  | yes hit ↦ absurd (ground arith)
  | no miss ↦ elim (ℕ_discrete index j) [
    | yes here ↦ subst (λ n. entry fat n ≢ 0) here miss
    | no behind ↦ find_empty-none fat left (index + 1) (ground arith) j (omega arith) (omega arith)
  ]
]

-- What a successful `AddCluster` has done: the lowest empty entry is an end mark, the parent's entry
-- points to it, and no other entry has changed.
pub record Extended (total : ℕ) (fat : Bytes) (parent : ℕ) (a : Added) : Type 0 where
  pub below : a.next_cluster < total
  pub was_empty : entry fat a.next_cluster ≡ 0
  pub lowest : (j : ℕ) → j < a.next_cluster → entry fat j ≢ 0
  pub entries :
      (d : ℕ)
      → d < max_cluster
      → entry a.fat d ≡ (
          if a.next_cluster == d
          then 0xff8
          else if ltb 0 parent && (parent == d)
          then a.next_cluster
          else entry fat d)
  pub bytes : AllBytes a.fat

link_lem :
    (fat : Bytes) (parent index : ℕ)
    → AllBytes fat
    → parent < max_cluster
    → index < 4096
    → ((d : ℕ)
        → d < max_cluster
        → entry (link fat parent index) d
          ≡ (if ltb 0 parent && (parent == d) then index else entry fat d))
      × AllBytes (link fat parent index)
link_lem fat parent index bytes hp hi = elim (Bool-cases (ltb 0 parent)) [
  | inl e ↦ rw e (set_cluster_lem fat parent index bytes hp hi)
  | inr e ↦ rw e (λ d h. refl, bytes)
]

pub finish-Extended :
    (total : ℕ) (fat : Bytes) (parent index : ℕ)
    → AllBytes fat
    → parent < max_cluster
    → total ≤ 4096
    → FirstEmpty fat 0 total index
    → Extended total fat parent
        (record { fat = set_cluster (link fat parent index) index 0xff8; next_cluster = index })
finish-Extended total fat parent index bytes hp ht r =
    let (linked, linked_bytes) = link_lem fat parent index bytes hp (omega (arith, r.below)) in
    let (marked, marked_bytes) =
      set_cluster_lem (link fat parent index) index 0xff8 linked_bytes (omega (arith, r.below))
        (omega arith) in
    record {
      below = omega (arith, r.below);
      was_empty = r.empty;
      lowest = λ j h. r.first j (omega arith) h;
      entries = λ d h. marked d h ∙ ap (λ (n : ℕ). if index == d then 0xff8 else n) (linked d h);
      bytes = marked_bytes;
    }

-- On a FAT12 table of bytes with at most 4096 entries, `AddCluster` fails exactly if the parent is
-- given and has a next cluster, or no entry is empty. Otherwise it takes the lowest empty entry, marks
-- it as the end of a chain, lets the parent's entry point to it, and changes no other entry.
pub add_cluster_lem :
    (total : ℕ) (fat : Bytes) (parent : ℕ)
    → AllBytes fat
    → parent < max_cluster
    → total ≤ 4096
    → ((add_cluster fat12 total fat parent ≡ none)
        × (((0 < parent) × (get_next_cluster fat12 fat parent ≢ 0))
            ⊎ ((j : ℕ) → j < total → entry fat j ≢ 0)))
      ⊎ ((a : Added) × (add_cluster fat12 total fat parent ≡ some a)
          × ((parent ≡ 0) ⊎ (get_next_cluster fat12 fat parent ≡ 0))
          × Extended total fat parent a)
unfolding add_cluster
add_cluster_lem total fat parent bytes hp ht =
    elim (Bool-cases (ltb 0 parent && not (get_next_cluster fat12 fat parent == 0))) [
      | inl busy ↦ inl (rw busy, inl (ground arith))
      | inr free ↦ elim (Option-cases (find_empty fat total 0)) [
        | inl full ↦ inl (
          rw (free, full),
          inr (λ j h. find_empty-none fat total 0 full j (omega arith) (omega arith)),
        )
        | inr (index, found) ↦ inr (
          _,
          rw (free, found),
          ground arith,
          finish-Extended total fat parent index bytes hp ht
              (find_empty-FirstEmpty fat total 0 found),
        )
      ]
    ]
