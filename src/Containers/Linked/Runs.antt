-- ===== src/Containers/Linked/Runs.antt =====
-- Sequences of `PushBack` and `PopFront`.
use baby_osv.Base.{
  ℕ, suc, ◌≤◌, ◌<◌, ◌≡◌, ◌≢◌, refl, ap, List, [], ◌∷◌, ◌++◌, length, u32_mod, arith,
}
use baby_osv.Base.Outcome.{Outcome, ok, ◌>>=◌}
use baby_osv.Containers.Linked.{Linked, empty_list, push_back, pop_front}
use baby_osv.Containers.Linked.Queue.{Holds, Away, push_back-Holds, pop_front-Holds}

-- A call, with the address that a new item gets.
pub data Call (A : Type 0) : Type 0 where
  push : ℕ → A → Call A
  pop : Call A

module _ {A : Type 0} where
  -- What the pops return, one after the other.
  unfoldable pub run : List (Call A) → Linked A → Outcome (List A)
  unfolding push_back pop_front
  run [] l = ok []
  run (push p x ∷ calls) l = push_back p x l >>= λ m. run calls m
  run (pop ∷ calls) l = pop_front l >>= λ (x, m). run calls m >>= λ xs. ok (x ∷ xs)

  -- The same of a queue, a list with the oldest object first.
  abbrev pub served : List (ℕ × A) → List (Call A) → List A
  served cells [] = []
  served cells (push p x ∷ calls) = served (cells ++ ((p, x) ∷ [])) calls
  served [] (pop ∷ calls) = []
  served ((p, x) ∷ cells) (pop ∷ calls) = x ∷ served cells calls

  -- A new item has an address that is not `nullptr` and no other item has, and nothing is taken from an empty
  -- queue.
  abbrev pub Allowed : List (ℕ × A) → List (Call A) → Type 0
  Allowed cells [] = Unit
  Allowed cells (push p x ∷ calls) =
      Away p cells
      × (p ≢ 0)
      × (suc (length cells) < u32_mod)
      × Allowed (cells ++ ((p, x) ∷ [])) calls
  Allowed [] (pop ∷ calls) = 1 ≤ 0
  Allowed (c ∷ cells) (pop ∷ calls) = Allowed cells calls

  run-served :
      (calls : List (Call A)) (l : Linked A) (cells : List (ℕ × A))
      → Holds l cells
      → Allowed cells calls
      → run calls l ≡ ok (served cells calls)
  unfolding run
  run-served [] l cells h a = refl
  run-served (push p x ∷ calls) l cells h (w, n, b, rest) =
      let (m, eq, after) = push_back-Holds l cells p x h w n b in
      rw (eq, run) (run-served calls m (cells ++ ((p, x) ∷ [])) after rest)
  run-served (pop ∷ calls) l [] h a = absurd (omega (arith, a))
  run-served (pop ∷ calls) l ((p, x) ∷ cells) h a =
      let (m, eq, after) = pop_front-Holds l cells p x h in
      rw (eq, run) (ap (λ o. o >>= λ xs. ok (x ∷ xs)) (run-served calls m cells after a))

  -- Of a new list on which only `PushBack` and `PopFront` are called, with items at new addresses, fewer than
  -- 2 ^ 32 - 1 at once, and no pop of an empty list, the pops return the objects in the order in which they
  -- were pushed, and no call reads or writes an item that is not there.
  pub run_in_order :
      (calls : List (Call A)) → Allowed [] calls → run calls empty_list ≡ ok (served [] calls)
  unfolding empty_list
  run_in_order calls a =
      run-served calls empty_list []
        (record {
          chain = refl;
          distinct = tt;
          at_end = refl;
          counted = refl;
          bounded = omega arith;
        })
        a
