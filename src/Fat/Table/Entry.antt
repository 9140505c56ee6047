-- ===== src/Fat/Table/Entry.antt =====
-- What `SetCluster` does to the entries of the table.
use native.Mathlib.Decide.{dec_lt, ℕ_discrete}
use baby_osv.Base.{
  ℕ, ◌+◌, ◌*◌, ◌/◌, ◌%◌, ◌<◌, ◌≡◌, refl, ap, ap₂, ◌∙◌, sym, subst, ◌⊎◌, inl, inr, true, false,
  arith, ◌==◌, if◌then◌else◌, update, u16_mod, Bool-cases,
}
use baby_osv.Fat.Table.{Bytes, get16, put16, merged, set_cluster, entry, offset_of, low_or_high}
use baby_osv.Digits.{or_twelve}

-- The table consists of bytes.
abbrev pub AllBytes : Bytes → Type 0
AllBytes fat = (p : ℕ) → fat p < 256

-- The offsets of clusters below this bound fit `u16`.
abbrev pub max_cluster : ℕ
max_cluster = 43690

offset_plain : (c : ℕ) → c < max_cluster → offset_of c ≡ c + c / 2
offset_plain c h = omega arith

pub entry-at :
    (fat : Bytes) (d : ℕ) → d < max_cluster → entry fat d ≡ low_or_high d (get16 fat (d + d / 2))
entry-at fat d h = ap (λ (o : ℕ). low_or_high d (get16 fat o)) (offset_plain d h)

put16-at :
    (fat : Bytes) (o v p : ℕ)
    → put16 fat o v p ≡ (if o + 1 == p then v / 256 % 256 else if o == p then v % 256 else fat p)
unfolding put16 update
put16-at fat o v p = refl

put16-AllBytes : (fat : Bytes) (o v : ℕ) → AllBytes fat → AllBytes (put16 fat o v)
put16-AllBytes fat o v b p = ground (arith, put16-at fat o v p, b p)

-- The word that is stored fits, and keeps the four bits that are not the cluster's.
record Merge (cluster next value word : ℕ) : Type 0 where
  small : word < u16_mod
  odd : cluster % 2 ≡ 1 → word ≡ value % 16 + next * 16
  even : cluster % 2 ≡ 0 → word ≡ value / 4096 * 4096 + next

merged-Merge :
    (cluster next value : ℕ)
    → next < 4096
    → value < u16_mod
    → Merge cluster next value (merged cluster next value)
unfolding merged
merged-Merge cluster next value n v = elim (Bool-cases (cluster % 2 == 1)) [
  | inl o ↦
      rw o
        (record { small = omega arith; odd = λ _. omega arith; even = λ e. absurd (ground arith) })
  | inr e ↦
      rw (e, or_twelve (value / 4096) next n)
        (record { small = omega arith; odd = λ p. absurd (ground arith); even = λ _. refl })
]

module _ (fat : Bytes) (c next : ℕ) (bytes : AllBytes fat) (cl : c < max_cluster)
    (nx : next < 4096) where
  abbrev stored : Bytes
  stored = set_cluster fat c next

  word : ℕ
  word = merged c next (get16 fat (c + c / 2))

  stored-at :
      (p : ℕ)
      → stored p ≡ (
          if c + c / 2 + 1 == p
          then word / 256 % 256
          else if c + c / 2 == p
          then word % 256
          else fat p)
  unfolding word set_cluster
  stored-at p =
      ap (λ (o : ℕ). put16 fat o (merged c next (get16 fat o)) p) (offset_plain c cl)
      ∙ put16-at fat (c + c / 2) (merged c next (get16 fat (c + c / 2))) p

  word-Merge : Merge c next (get16 fat (c + c / 2)) word
  unfolding word
  word-Merge = merged-Merge c next _ nx (omega (arith, bytes (c + c / 2), bytes (c + c / 2 + 1)))

  entry_self : entry stored c ≡ next
  entry_self = entry-at stored c cl ∙ ground (arith, whole, word-Merge)
    where
      low : stored (c + c / 2) ≡ word % 256
      low = stored-at (c + c / 2) ∙ ground arith

      high : stored (c + c / 2 + 1) ≡ word / 256 % 256
      high = stored-at (c + c / 2 + 1) ∙ ground arith

      whole : get16 stored (c + c / 2) ≡ word
      whole = omega (arith, low, high, word-Merge.small)

  far : (p : ℕ) → (p < c + c / 2) ⊎ (c + c / 2 + 1 < p) → stored p ≡ fat p
  far p h = stored-at p ∙ ground arith

  entry-next : (d : ℕ) → d < max_cluster → c < d → entry stored d ≡ entry fat d
  entry-next d h lt = elim (dec_lt (c + c / 2 + 1) (d + d / 2)) [
    | yes apart ↦
        entry-at stored d h
        ∙ ap (low_or_high d) (
            ap₂ (λ (a b : ℕ). a + 256 * b) (far (d + d / 2) (inr apart))
              (far (d + d / 2 + 1) (inr (omega arith))))
        ∙ sym (entry-at fat d h)
    | no near ↦
        let step : d ≡ c + 1 = omega arith in
        let even : c % 2 ≡ 0 = omega arith in
        let high : stored (d + d / 2) ≡ word / 256 % 256 =
          ap stored {x = d + d / 2} {y = c + c / 2 + 1} (omega arith)
          ∙ stored-at (c + c / 2 + 1)
          ∙ ground arith in
        let old : fat (d + d / 2) ≡ fat (c + c / 2 + 1) =
          ap fat {x = d + d / 2} {y = c + c / 2 + 1} (omega arith) in
        let beyond = far (d + d / 2 + 1) (inr (omega arith)) in
        let stores = word-Merge.even even in
        let odd : (d % 2 == 1) ≡ true = ground arith in
        rw (entry-at stored d h, entry-at fat d h, odd)
          (omega (
            arith,
            high,
            old,
            beyond,
            stores,
            bytes (c + c / 2),
            bytes (c + c / 2 + 1),
            bytes (d + d / 2 + 1),
            word-Merge.small,
          ))
  ]

  entry-prev : (d : ℕ) → d < max_cluster → d < c → entry stored d ≡ entry fat d
  entry-prev d h lt = elim (dec_lt (d + d / 2 + 1) (c + c / 2)) [
    | yes apart ↦
        entry-at stored d h
        ∙ ap (low_or_high d) (
            ap₂ (λ (a b : ℕ). a + 256 * b) (far (d + d / 2) (inl (omega arith)))
              (far (d + d / 2 + 1) (inl apart)))
        ∙ sym (entry-at fat d h)
    | no near ↦
        let step : c ≡ d + 1 = omega arith in
        let odd : c % 2 ≡ 1 = omega arith in
        let low : stored (d + d / 2 + 1) ≡ word % 256 =
          ap stored {x = d + d / 2 + 1} {y = c + c / 2} (omega arith)
          ∙ stored-at (c + c / 2)
          ∙ ground arith in
        let old : fat (d + d / 2 + 1) ≡ fat (c + c / 2) =
          ap fat {x = d + d / 2 + 1} {y = c + c / 2} (omega arith) in
        let before = far (d + d / 2) (inl (omega arith)) in
        let stores = word-Merge.odd odd in
        let even : (d % 2 == 1) ≡ false = ground arith in
        rw (entry-at stored d h, entry-at fat d h, even)
          (omega (
            arith,
            low,
            old,
            before,
            stores,
            bytes (c + c / 2),
            bytes (c + c / 2 + 1),
            bytes (d + d / 2),
          ))
  ]

set_cluster-AllBytes : (fat : Bytes) (c next : ℕ) → AllBytes fat → AllBytes (set_cluster fat c next)
unfolding set_cluster
set_cluster-AllBytes fat c next b = put16-AllBytes fat _ _ b

-- If the table consists of bytes, both clusters are below 43690 and the new value has twelve bits,
-- then after `SetCluster` the cluster's entry is the new value and every other entry is as it was,
-- also the one that shares a byte with it; and the table still consists of bytes.
pub set_cluster_lem :
    (fat : Bytes) (c next : ℕ)
    → AllBytes fat
    → c < max_cluster
    → next < 4096
    → ((d : ℕ)
        → d < max_cluster
        → entry (set_cluster fat c next) d ≡ (if c == d then next else entry fat d))
      × AllBytes (set_cluster fat c next)
set_cluster_lem fat c next bytes cl nx = (
  λ d h. elim (ℕ_discrete c d) [
    | yes e ↦
        subst (λ n. entry (set_cluster fat c next) n ≡ (if c == n then next else entry fat n)) e
          (entry_self fat c next bytes cl nx ∙ ground arith)
    | no ne ↦ elim (dec_lt c d) [
      | yes lt ↦ entry-next fat c next bytes cl nx d h lt ∙ ground arith
      | no ge ↦ entry-prev fat c next bytes cl nx d h (omega arith) ∙ ground arith
    ]
  ],
  set_cluster-AllBytes fat c next bytes,
)
