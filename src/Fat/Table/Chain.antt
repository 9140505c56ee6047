-- ===== src/Fat/Table/Chain.antt =====
-- The chains of clusters that files and directories consist of.
use baby_osv.Base.{
  ℕ, zero, suc, ◌≤◌, ◌<◌, ◌≡◌, refl, ap, ◌∙◌, some, inl, inr, sym, subst, ◌≢◌, List, [], ◌∷◌, ◌++◌,
  arith, length, false, if◌then◌else◌, ◌==◌,
}
use baby_osv.Fat.Table.{Bytes, fat12, entry, get_next_cluster, Added, add_cluster}
use baby_osv.Fat.Table.Entry.{AllBytes, max_cluster}
use baby_osv.Fat.Table.Allocation.{Extended, add_cluster_lem, get_next_cluster-entry}

-- From the first cluster the entries lead through the clusters of the list to the last, which has an
-- end mark.
pub data Chain (fat : Bytes) : ℕ → List ℕ → ℕ → Type 0 where
  last : {c e : ℕ} → 2 ≤ c → c < max_cluster → 0xff8 ≤ entry fat c → c ≡ e → Chain fat c (c ∷ []) e
  next :
      {c d e : ℕ} {cs : List ℕ}
      → 2 ≤ c
      → c < max_cluster
      → entry fat c ≡ d
      → d < 0xff8
      → Chain fat d cs e
      → Chain fat c (c ∷ cs) e

-- Following `GetNextCluster`, as the reads of files and directories do, until it gives 0.
unfoldable pub walk : ℕ → Bytes → ℕ → List ℕ
walk zero fat c = []
walk (suc fuel) fat c =
    let rest = walk fuel fat (get_next_cluster fat12 fat c) in if c == 0 then [] else c ∷ rest

walk_zero : (fuel : ℕ) (fat : Bytes) → walk fuel fat 0 ≡ []
unfolding walk
walk_zero zero fat = refl
walk_zero (suc fuel) fat = refl

-- On FAT12, following `GetNextCluster` from the start of a chain visits exactly the clusters of the
-- chain, in order, and ends, in as many steps as there are clusters.
pub walk-Chain :
    {fat : Bytes} {c e : ℕ} {cs : List ℕ} (fuel : ℕ)
    → Chain fat c cs e
    → length cs ≤ fuel
    → walk fuel fat c ≡ cs
unfolding walk
walk-Chain zero (last lo hi e _) h = absurd (omega arith)
walk-Chain zero (next lo hi e small r) h = absurd (omega arith)
walk-Chain {fat} (suc fuel) (last {c} lo hi e _) h =
    let ended : get_next_cluster fat12 fat c ≡ 0 =
      get_next_cluster-entry fat c lo hi ∙ ground arith in
    let going : (c == 0) ≡ false = ground arith in
    rw (going, ended) (ap (λ l. c ∷ l) (walk_zero fuel fat))
walk-Chain {fat} (suc fuel) (next {c} {d} lo hi e small r) h =
    let on : get_next_cluster fat12 fat c ≡ d = get_next_cluster-entry fat c lo hi ∙ ground arith in
    let going : (c == 0) ≡ false = ground arith in
    rw (going, on) (ap (λ l. c ∷ l) (walk-Chain fuel r (omega arith)))

first_two : {fat : Bytes} {c e : ℕ} {cs : List ℕ} → Chain fat c cs e → 2 ≤ c
first_two (last lo hi m q) = lo
first_two (next lo hi m small r) = lo

last_marked : {fat : Bytes} {c e : ℕ} {cs : List ℕ} → Chain fat c cs e → 0xff8 ≤ entry fat e
last_marked {fat} (last lo hi m q) = subst (λ n. 0xff8 ≤ entry fat n) q m
last_marked (next lo hi m small r) = last_marked r

module _ {total : ℕ} {fat : Bytes} {parent : ℕ} {a : Added} (r : Extended total fat parent a) where
  -- An entry that is neither empty nor the parent's keeps its value.
  entry-kept :
      (c : ℕ) → c < max_cluster → entry fat c ≢ 0 → c ≢ parent → entry a.fat c ≡ entry fat c
  entry-kept c h used ne = r.entries c h ∙ ground (arith, other)
    where
      other : a.next_cluster ≢ c
      other e = used (ap (entry fat) (sym e) ∙ r.was_empty)

  -- The parent's entry points to the new cluster.
  entry-parent :
      (c : ℕ)
      → c < max_cluster
      → 0 < c
      → entry fat c ≢ 0
      → c ≡ parent
      → entry a.fat c ≡ a.next_cluster
  entry-parent c h pos used e = r.entries c h ∙ ground (arith, other)
    where
      other : a.next_cluster ≢ c
      other q = used (ap (entry fat) (sym q) ∙ r.was_empty)

  new_entry : a.next_cluster < max_cluster → 0xff8 ≤ entry a.fat a.next_cluster
  new_entry h = let marked = r.entries a.next_cluster h in ground arith

  chain_kept :
      {c e : ℕ} {cs : List ℕ}
      → Chain fat c cs e
      → e ≢ parent
      → 0xff8 ≤ entry fat parent
      → Chain a.fat c cs e
  chain_kept (last {c} lo hi m q) apart end =
      last lo hi (rw (entry-kept c hi (omega arith) (λ h. apart (sym q ∙ h))) m) q
  chain_kept (next {c} {d} lo hi m small rest) apart end =
      next lo hi
        (entry-kept c hi (omega (arith, first_two rest)) (λ h. omega (arith, ap (entry fat) h)) ∙ m)
        small (chain_kept rest apart end)

  chain_longer :
      {c e : ℕ} {cs : List ℕ}
      → Chain fat c cs e
      → e ≡ parent
      → entry fat 0 ≢ 0
      → entry fat 1 ≢ 0
      → total ≤ 0xff8
      → Chain a.fat c (cs ++ (a.next_cluster ∷ [])) a.next_cluster
  chain_longer (last {c} lo hi m q) at zero_used one_used size =
      next lo hi (entry-parent c hi (omega arith) (omega arith) (q ∙ at)) (omega (arith, r.below))
        (last new_two (omega (arith, r.below)) marked refl)
    where
      new_two : 2 ≤ a.next_cluster
      new_two = omega (
        arith,
        λ (h : a.next_cluster ≡ 0). zero_used (ap (entry fat) (sym h) ∙ r.was_empty),
        λ (h : a.next_cluster ≡ 1). one_used (ap (entry fat) (sym h) ∙ r.was_empty),
      )

      marked : 0xff8 ≤ entry a.fat a.next_cluster
      marked = new_entry (omega (arith, r.below))
  chain_longer (next {c} {d} lo hi m small rest) at zero_used one_used size =
      next lo hi
        (entry-kept c hi (omega (arith, first_two rest))
            (λ h. omega (arith, ap (entry fat) h, ap (entry fat) at, last_marked rest))
          ∙ m)
        small (chain_longer rest at zero_used one_used size)

last_below : {fat : Bytes} {c e : ℕ} {cs : List ℕ} → Chain fat c cs e → e < max_cluster
last_below (last lo hi m q) = subst (λ n. n < max_cluster) q hi
last_below (next lo hi m small r) = last_below r

-- What a success of `AddCluster` means.
success-Extended :
    (total : ℕ) (fat : Bytes) (parent : ℕ) (a : Added)
    → AllBytes fat
    → parent < max_cluster
    → total ≤ 4096
    → add_cluster fat12 total fat parent ≡ some a
    → Extended total fat parent a
success-Extended total fat parent a bytes hp ht e =
    elim (add_cluster_lem total fat parent bytes hp ht) [
      | inl (failed, _) ↦ cc
      | inr (b, added, _, extended) ↦
          subst (Extended total fat parent) (some_eq b a (sym added ∙ e)) extended
    ]
  where
    some_eq : (b a : Added) → some b ≡ some a → b ≡ a
    some_eq b a q = cc

-- On a FAT12 table of bytes with at most 4088 entries, of which 0 and 1 are not empty: if `AddCluster`
-- succeeds for the last cluster of a chain, the same chain with the new cluster behind it is in the table.
pub chain_grows :
    (total : ℕ) (fat : Bytes) (parent : ℕ) (a : Added) {c : ℕ} {cs : List ℕ}
    → AllBytes fat
    → total ≤ 0xff8
    → entry fat 0 ≢ 0
    → entry fat 1 ≢ 0
    → add_cluster fat12 total fat parent ≡ some a
    → Chain fat c cs parent
    → Chain a.fat c (cs ++ (a.next_cluster ∷ [])) a.next_cluster
chain_grows total fat parent a bytes size zero_used one_used e chain =
    chain_longer
      (success-Extended total fat parent a bytes (last_below chain) (omega (arith, size)) e) chain
      refl zero_used one_used size

-- On a FAT12 table of bytes with at most 4096 entries: if `AddCluster` succeeds for the last cluster of some
-- chain, every chain that ends elsewhere is still in the table.
pub other_chains_stay :
    (total : ℕ) (fat : Bytes) (parent : ℕ) (a : Added) {b c e : ℕ} {bs cs : List ℕ}
    → AllBytes fat
    → total ≤ 4096
    → add_cluster fat12 total fat parent ≡ some a
    → Chain fat b bs parent
    → Chain fat c cs e
    → e ≢ parent
    → Chain a.fat c cs e
other_chains_stay total fat parent a bytes size added own chain apart =
    chain_kept (success-Extended total fat parent a bytes (last_below own) size added) chain apart
      (last_marked own)
