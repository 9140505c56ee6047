-- ===== src/Containers/Dictionary/Tests.antt =====
-- Dictionaries of one and of three keys.
use baby_osv.Base.{ℕ, ◌+◌, ◌*◌, ◌≡◌, some, arith}
use baby_osv.Base.Outcome.{ok}
use baby_osv.Containers.Array.{Array, remove_at}
use baby_osv.Containers.Dictionary.{Tuple, find_tuple, lookup, remove_key}
use baby_osv.Containers.Dictionary.Lookup.{IsSorted, find_tuple-present}
use baby_osv.Containers.Dictionary.Absent.{IsAbsent}

abbrev tens : ℕ → Tuple ℕ
tens i = record { key = 10 + 10 * i; value = i }

abbrev three : Array (Tuple ℕ)
three = record { elements = tens; size = 3; capacity = 8 }

abbrev one : Array (Tuple ℕ)
one = record { elements = tens; size = 1; capacity = 8 }

three-IsSorted : IsSorted three
three-IsSorted i j less h = omega (arith, less)

three-IsAbsent : IsAbsent 25 three
three-IsAbsent i h e = omega (arith, e)

find_tuple-present_example :
    (find_tuple 4 30 three ≡ some (ok (some 2)))
    × (lookup 4 tens 0 30 three ≡ some (ok (three, 2)))
    × (remove_key 4 30 three ≡ some (remove_at 2 three))
find_tuple-present_example =
    find_tuple-present 4 2 tens 0 three three-IsSorted (omega arith) (omega arith) (omega arith)
