-- ===== src/Containers/Array/Tests.antt =====
-- Arrays of three numbers.
use baby_osv.Base.{ℕ, ◌≡◌, [], ◌∷◌, arith, get_or, ◌==◌}
use baby_osv.Base.Outcome.{ok}
use baby_osv.Containers.Array.{Array, insert_at, remove}
use baby_osv.Containers.Array.Contents.{contents}
use baby_osv.Containers.Array.Insert.{IsValid, Inserted, insert_at_lem}
use baby_osv.Containers.Array.Remove.{remove_lem}

-- The buffer is full.
abbrev three : Array ℕ
three = record { elements = λ i. get_or (5 ∷ 6 ∷ 5 ∷ []) i 0; size = 3; capacity = 3 }

three-IsValid : IsValid three
three-IsValid = record { in_capacity = omega arith; bounded = omega arith }

insert_at_lem_example : Inserted 1 9 three (insert_at (λ _. 0) 1 9 three)
insert_at_lem_example = insert_at_lem (λ _. 0) 1 9 three three-IsValid

remove_lem_example :
    (s : Array ℕ) × (remove ◌==◌ 5 three ≡ ok s) × (contents s ≡ 6 ∷ []) × IsValid s
remove_lem_example = remove_lem ◌==◌ 5 three three-IsValid
