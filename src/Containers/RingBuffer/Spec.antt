-- ===== src/Containers/RingBuffer/Spec.antt =====
-- What a ring buffer promises: a bounded queue, oldest object first, with a count of the lost ones.
use baby_osv.Base.{ℕ, Option, none, some, List, [], ◌∷◌, ◌++◌, ◌==◌, if◌then◌else◌, length, add32}

pub record Queue {ℓ} (A : Type ℓ) : Type ℓ where
  pub items : List A
  pub lost : ℕ

module _ {ℓ} {A : Type ℓ} where
  abbrev pub behind_first : List A → List A
  behind_first [] = []
  behind_first (x ∷ xs) = xs

  unfoldable pub push : ℕ → Queue A → A → Queue A
  push limit q x =
      if length q.items == limit
      then record { items = behind_first q.items ++ (x ∷ []); lost = add32 q.lost 1 }
      else record { items = q.items ++ (x ∷ []); lost = q.lost }

  abbrev pub split_first : List A → ℕ → Option (A × Queue A)
  split_first [] n = none
  split_first (x ∷ xs) n = some (x, record { items = xs; lost = n })

  unfoldable pub pop : Queue A → Option (A × Queue A)
  pop q = split_first q.items q.lost

-- The calls of a client.
pub data Call {ℓ} (A : Type ℓ) : Type ℓ where
  pushes : A → Call A
  pops : Call A

-- What the pops of a client return; the run stops at a pop of an empty queue.
unfoldable pub run_queue {ℓ} : {A : Type ℓ} → ℕ → Queue A → List (Call A) → List (Option A)
unfolding push pop
run_queue limit q [] = []
run_queue limit q (pushes x ∷ cs) = run_queue limit (push limit q x) cs
run_queue limit q (pops ∷ cs) = elim (pop q) [
  | none ↦ none ∷ []
  | some (x, s) ↦ some x ∷ run_queue limit s cs
]
