-- ===== src/Containers/Linked/Tests.antt =====
-- Lists of two items.
use baby_osv.Base.{ℕ, ◌≡◌, refl, arith, [], ◌∷◌}
use baby_osv.Base.Outcome.{ok, fault, ◌>>=◌}
use baby_osv.Containers.Linked.Runs.{push, pop, run, run_in_order}
use baby_osv.Containers.Linked.{empty_list, push_back, pop_front, push_front, pop_back}

-- `PopFront` leaves `prev` of the new head pointing to the item that it deleted.
pop_both_ends :
    (push_back {A = ℕ} 8 1 empty_list >>= λ l.
    push_back 16 2 l >>= λ m. pop_front m >>= λ (x, n). pop_back n)
    ≡ fault
unfolding push_back pop_front pop_back empty_list
pop_both_ends = refl

-- `PushFront` does not set `prev` of the old head, so that `PopBack` takes it for the only item.
at_both_ends :
    (push_front {A = ℕ} 8 1 empty_list >>= λ l.
    push_front 16 2 l >>= λ m. pop_back m >>= λ (x, n). pop_front n >>= λ (y, o). pop_front o)
    ≡ fault
unfolding push_front pop_front pop_back empty_list
at_both_ends = refl

run_in_order_example :
    run {A = ℕ} (push 8 1 ∷ push 16 2 ∷ pop ∷ push 24 3 ∷ pop ∷ pop ∷ []) empty_list
    ≡ ok (1 ∷ 2 ∷ 3 ∷ [])
run_in_order_example =
    run_in_order {A = ℕ} (push 8 1 ∷ push 16 2 ∷ pop ∷ push 24 3 ∷ pop ∷ pop ∷ []) (
      tt,
      ground arith,
      omega arith,
      (
        (ground arith, tt),
        ground arith,
        omega arith,
        ((ground arith, tt), ground arith, omega arith, tt),
      ),
    )
