-- ===== src/Memory/Map/Tests.antt =====
-- Memory maps of two entries.
use baby_osv.Base.{List, true, ◌≤◌, ℕ, ◌≡◌, refl, some, [], ◌∷◌, arith}
use baby_osv.Memory.Map.{Entry, sort_entries}
use baby_osv.Memory.Map.Sorting.{count}
use baby_osv.Memory.Map.Ending.{ascending, sort_entries_lem}
use mathlib.Core.List.{Perm}

abbrev entry : ℕ → Entry
entry base = record { base = base; length = 4096; type = 1; attr = 0 }

sorts : sort_entries 3 (entry 8192 ∷ entry 0 ∷ []) ≡ some (entry 0 ∷ entry 8192 ∷ [])
unfolding sort_entries
sorts = refl

two_apart : (b : ℕ) → count b (entry 8192 ∷ entry 0 ∷ []) ≤ 1
two_apart b = ground arith

sort_entries_lem_example :
    (sorted : List Entry) × (sort_entries 3 (entry 8192 ∷ entry 0 ∷ []) ≡ some sorted)
    × Perm sorted (entry 8192 ∷ entry 0 ∷ [])
    × (ascending sorted ≡ true)
sort_entries_lem_example = sort_entries_lem 3 (entry 8192 ∷ entry 0 ∷ []) two_apart (omega arith)
