-- ===== src/Threads/Scheduler/Turns.antt =====
-- Round robin: the running threads take turns in the order of the array.
use baby_osv.Base.{
  ℕ, zero, suc, ◌≡◌, refl, ap, ◌∙◌, subst, List, [], ◌∷◌, ◌++◌, append_assoc, length, update_self,
}
use baby_osv.Threads.Scheduler.{running, Machine, next_thread, choose}
use baby_osv.Threads.Scheduler.Places.{next_thread-turns}

unfoldable pub switches : ℕ → Machine → Machine
switches zero m = m
switches (suc n) m = switches n (next_thread m)

-- What a run of switches has brought about: `t` runs, and the threads wait in the given order.
pub record Turn (t : ℕ) (order : List ℕ) (m : Machine) : Type 0 where
  pub runs : m.current_thread ≡ t
  pub behind : m.threads ≡ order
  pub on : m.state t ≡ running

choose-Turn : (t : ℕ) (order : List ℕ) (m : Machine) → Turn t order (choose (t ∷ order) m)
unfolding choose
choose-Turn t order m = record { runs = refl; behind = refl; on = update_self m.state t running }

-- If the current thread is `Running`, the thread with `n` threads in front of it in the array runs after
-- `n + 1` switches; the threads behind it, the one that was current and the threads in front of it then
-- wait in this order, so none is lost or doubled.
pub switches-Turn :
    (xs : List ℕ) (t : ℕ) (ys : List ℕ) (m : Machine)
    → m.state m.current_thread ≡ running
    → m.threads ≡ xs ++ (t ∷ ys)
    → Turn t (ys ++ (m.current_thread ∷ xs)) (switches (suc (length xs)) m)
unfolding switches
switches-Turn [] t ys m on e =
    rw (next_thread-turns m e on) (choose-Turn t (ys ++ (m.current_thread ∷ [])) m)
switches-Turn (x ∷ xs) t ys m on e =
    subst (λ order. Turn t order (switches (suc (length xs)) (next_thread m))) order
      (switches-Turn xs t (ys ++ (m.current_thread ∷ [])) (next_thread m) (rw now.runs now.on)
        (now.behind ∙ append_assoc xs (t ∷ ys) (m.current_thread ∷ [])))
  where
    now : Turn x ((xs ++ (t ∷ ys)) ++ (m.current_thread ∷ [])) (next_thread m)
    now =
        rw (next_thread-turns m e on)
          (choose-Turn x ((xs ++ (t ∷ ys)) ++ (m.current_thread ∷ [])) m)

    order :
        (ys ++ (m.current_thread ∷ [])) ++ ((next_thread m).current_thread ∷ xs)
        ≡ ys ++ (m.current_thread ∷ x ∷ xs)
    order =
        append_assoc ys (m.current_thread ∷ []) ((next_thread m).current_thread ∷ xs)
        ∙ ap (λ n. ys ++ (m.current_thread ∷ n ∷ xs)) now.runs
