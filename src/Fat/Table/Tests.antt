-- ===== src/Fat/Table/Tests.antt =====
-- Runs on a small table, and the theorems at concrete inputs.
use Prim.{Unit, tt}
use baby_osv.Base.{
  ℕ, zero, suc, ◌<◌, ◌≡◌, refl, ◌≢◌, ◌⊎◌, List, [], ◌∷◌, arith, some, none, get_or, ◌==◌,
  if◌then◌else◌,
}
use baby_osv.Fat.Table.{Bytes, fat12, entry, set_cluster, get_next_cluster, add_cluster, Added}
use baby_osv.Fat.Table.Entry.{AllBytes, max_cluster, set_cluster_lem}
use baby_osv.Fat.Table.Allocation.{Extended, add_cluster_lem}
use baby_osv.Fat.Table.Chain.{Chain, last, next, walk, walk-Chain, other_chains_stay, chain_grows}

abbrev Small : List ℕ → Type 0
Small [] = Unit {0}
Small (x ∷ xs) = (x < 256) × Small xs

-- The entries 0 and 1 are reserved; the clusters 2 and 3 are a file, 5 is another; 4 is empty.
abbrev table_bytes : List ℕ
table_bytes = 0xf0 ∷ 0xff ∷ 0xff ∷ 0x03 ∷ 0x80 ∷ 0xff ∷ 0x00 ∷ 0x80 ∷ 0xff ∷ []

abbrev table : Bytes
table p = get_or table_bytes p 0

read_entries :
    (entry table 0 ≡ 0xff0)
    × (entry table 2 ≡ 3)
    × (entry table 3 ≡ 0xff8)
    × (entry table 4 ≡ 0)
    × (entry table 5 ≡ 0xff8)
read_entries = (refl, refl, refl, refl, refl)

table-AllBytes : AllBytes table
table-AllBytes p = get_or-small p table_bytes (
  omega arith,
  (
    omega arith,
    (
      omega arith,
      (omega arith, (omega arith, (omega arith, (omega arith, (omega arith, (omega arith, tt)))))),
    ),
  ),
)
  where
    get_or-small : (n : ℕ) (xs : List ℕ) → Small xs → get_or xs n 0 < 256
    get_or-small n [] h = omega arith
    get_or-small zero (x ∷ xs) h = h.0
    get_or-small (suc n) (x ∷ xs) h = get_or-small n xs h.1

abbrev file : Chain table 2 (2 ∷ 3 ∷ []) 3
file =
    next (omega arith) (omega arith) refl (omega arith)
      (last (omega arith) (omega arith) (omega arith) refl)

abbrev other_file : Chain table 5 (5 ∷ []) 5
other_file = last (omega arith) (omega arith) (omega arith) refl

-- The file's last cluster gets a next one.
abbrev grown : Added
grown = record { fat = set_cluster (set_cluster table 3 4) 4 0xff8; next_cluster = 4 }

grown_lem : add_cluster fat12 6 table 3 ≡ some grown
unfolding add_cluster
grown_lem = refl

set_cluster_lem_example :
    ((d : ℕ)
      → d < max_cluster
      → entry (set_cluster table 3 4) d ≡ (if 3 == d then 4 else entry table d))
    × AllBytes (set_cluster table 3 4)
set_cluster_lem_example = set_cluster_lem table 3 4 table-AllBytes (omega arith) (omega arith)

add_cluster_lem_example :
    ((add_cluster fat12 6 table 3 ≡ none)
      × (((0 < 3) × (get_next_cluster fat12 table 3 ≢ 0)) ⊎ ((j : ℕ) → j < 6 → entry table j ≢ 0)))
    ⊎ ((a : Added) × (add_cluster fat12 6 table 3 ≡ some a)
        × ((◌≡◌ {A = ℕ} 3 0) ⊎ (get_next_cluster fat12 table 3 ≡ 0))
        × Extended 6 table 3 a)
add_cluster_lem_example = add_cluster_lem 6 table 3 table-AllBytes (omega arith) (omega arith)

walk-Chain_example : walk 2 table 2 ≡ 2 ∷ 3 ∷ []
walk-Chain_example = walk-Chain 2 file (omega arith)

other_chains_stay_example : Chain grown.fat 5 (5 ∷ []) 5
other_chains_stay_example =
    other_chains_stay 6 table 3 grown table-AllBytes (omega arith) grown_lem file other_file
      (omega arith)

chain_grows_example : Chain grown.fat 2 (2 ∷ 3 ∷ 4 ∷ []) 4
chain_grows_example =
    chain_grows 6 table 3 grown table-AllBytes (omega arith) (omega arith) (omega arith) grown_lem
      file
