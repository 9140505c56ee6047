-- ===== src/Threads/Scheduler/Lost.antt =====
-- A thread that waits for a signal, and the signals themselves, over any sequence of calls.
use mathlib.Core.Bool.{false≢true}
use native.Mathlib.Decide.{ℕ_discrete}
use baby_osv.Base.{
  ℕ, ◌≡◌, refl, ap, ◌∙◌, sym, subst, ◌≢◌, inl, inr, true, false, List, [], ◌∷◌, arith, Bool-cases,
  update, update_self, update_ne,
}
use baby_osv.Threads.Scheduler.{
  State, created, running, waiting, zombie, unstoppable, same_state, Machine, set_state, choose,
  next_thread, Signal, enlist, raise, reset,
}
use baby_osv.Threads.Scheduler.Places.{count, places, next_thread-drops, cons_cases}
use baby_osv.Threads.Scheduler.Waiting.{
  Kernel, Call, switches, creates, starts, pauses, kills, locks, unlocks, enlists, raises, resets,
  perform, run, given, places-run,
}

waiting_lem : (s : State) → same_state s waiting ≡ true → s ≡ waiting
waiting_lem waiting e = refl
waiting_lem created e = cc
waiting_lem running e = cc
waiting_lem zombie e = cc
waiting_lem unstoppable e = cc

set_waiting : (t : ℕ) (m : Machine) → (set_state t waiting m).state t ≡ waiting
unfolding set_state
set_waiting t m = elim (Bool-cases (same_state (m.state t) waiting)) [
  | inl e ↦ rw e (waiting_lem (m.state t) e)
  | inr e ↦ rw e (update_self m.state t waiting)
]

kept :
    (t : ℕ) (s : State) (m : Machine)
    → ((set_state t s m).current_thread ≡ m.current_thread)
      × ((set_state t s m).threads ≡ m.threads)
unfolding set_state
kept t s m = elim (Bool-cases (same_state (m.state t) s)) [
  | inl e ↦ rw e (refl, refl)
  | inr e ↦ rw e (refl, refl)
]

enlist-places :
    (s : Signal) (m : Machine)
    → s.raised ≡ false
    → m.threads ≢ []
    → count m.current_thread m.threads ≡ 0
    → places m.current_thread (next_thread (enlist s m).1) ≡ 0
unfolding enlist choose
enlist-places s m calm others once = elim (cons_cases m.threads) [
  | inl e ↦ absurd (others e)
  | inr (x, xs, e) ↦
      let (same, array) = kept m.current_thread waiting m in
      let stopped : (set_state m.current_thread waiting m).state
            (set_state m.current_thread waiting m).current_thread
          ≡ waiting =
        rw same (set_waiting m.current_thread m) in
      rw
        (
          calm,
          next_thread-drops (set_state m.current_thread waiting m) (array ∙ e) (rw stopped refl)
              (rw stopped refl),
        )
        (sym (ap (count m.current_thread) e) ∙ once)
]

-- If the current thread waits for a signal that is not raised, while other threads are in the array
-- `threads` and it is not, and the switch that follows, by `Wait` itself or by the timer, comes before any
-- other call, then the thread never becomes the current one again, whatever calls come behind the switch,
-- also of `Raise` for that signal, as long as none creates a thread at its address.
pub waiter_never_runs :
    (a : ℕ) (k : Kernel) (cs : List Call)
    → (k.signals a).raised ≡ false
    → k.machine.threads ≢ []
    → count k.machine.current_thread k.machine.threads ≡ 0
    → given k.machine.current_thread cs ≡ 0
    → (run (enlists a ∷ switches ∷ cs) k).machine.current_thread ≢ k.machine.current_thread
unfolding run perform
waiter_never_runs a k cs calm others once fresh e = ground (
  arith,
  places-run k.machine.current_thread cs (perform switches (perform (enlists a) k)),
  enlist-places (k.signals a) k.machine calm others once,
)

-- A signal that is raised has no waiting thread.
abbrev pub Quiet : Signal → Type 0
Quiet s = s.raised ≡ true → s.waiting_threads ≡ []

enlist_calm : (s : Signal) (m : Machine) → s.raised ≡ false → (enlist s m).0.raised ≡ false
unfolding enlist
enlist_calm s m e = rw e refl

enlist_taken : (s : Signal) (m : Machine) → s.raised ≡ true → (enlist s m).0.raised ≡ false
unfolding enlist
enlist_taken s m e = rw e refl

enlist-Quiet : (s : Signal) (m : Machine) → Quiet (enlist s m).0
enlist-Quiet s m h = elim (Bool-cases s.raised) [
  | inl e ↦ absurd (false≢true (sym (enlist_taken s m e) ∙ h))
  | inr e ↦ absurd (false≢true (sym (enlist_calm s m e) ∙ h))
]

raise_alone :
    (s : Signal) (m : Machine) → s.waiting_threads ≡ [] → (raise s m).0.waiting_threads ≡ []
unfolding raise
raise_alone s m e = rw e refl

raise_wakes :
    (s : Signal) (m : Machine) {u : ℕ} {us : List ℕ}
    → s.waiting_threads ≡ u ∷ us
    → (raise s m).0.raised ≡ false
unfolding raise
raise_wakes s m e = rw e refl

raise-Quiet : (s : Signal) (m : Machine) → Quiet (raise s m).0
raise-Quiet s m h = elim (cons_cases s.waiting_threads) [
  | inl e ↦ raise_alone s m e
  | inr (u, us, e) ↦ absurd (false≢true (sym (raise_wakes s m e) ∙ h))
]

abbrev pub AllQuiet : Kernel → Type 0
AllQuiet k = (a : ℕ) → Quiet (k.signals a)

update-AllQuiet :
    (signals : ℕ → Signal) (b : ℕ) (s : Signal)
    → ((a : ℕ) → Quiet (signals a))
    → Quiet s
    → (a : ℕ) → Quiet (update signals b s a)
update-AllQuiet signals b s q r a = elim (ℕ_discrete b a) [
  | yes e ↦ subst Quiet (sym (subst (λ n. update signals b s n ≡ s) e (update_self signals b s))) r
  | no ne ↦ subst Quiet (sym (update_ne signals b a s ne)) (q a)
]

perform-AllQuiet : (c : Call) (k : Kernel) → AllQuiet k → AllQuiet (perform c k)
unfolding perform reset
perform-AllQuiet (enlists b) k q =
    update-AllQuiet k.signals b (enlist (k.signals b) k.machine).0 q
      (enlist-Quiet (k.signals b) k.machine)
perform-AllQuiet (raises b) k q =
    update-AllQuiet k.signals b (raise (k.signals b) k.machine).0 q
      (raise-Quiet (k.signals b) k.machine)
perform-AllQuiet (resets b) k q =
    update-AllQuiet k.signals b (reset (k.signals b)) q (λ h. absurd (false≢true h))
perform-AllQuiet switches k q = q
perform-AllQuiet (creates t) k q = q
perform-AllQuiet (starts t) k q = q
perform-AllQuiet (pauses t) k q = q
perform-AllQuiet (kills t us) k q = q
perform-AllQuiet locks k q = q
perform-AllQuiet unlocks k q = q

-- After any calls, from a state in which no signal is raised while a thread waits for it, no signal is
-- raised while a thread waits for it.
pub run-AllQuiet : (cs : List Call) (k : Kernel) → AllQuiet k → AllQuiet (run cs k)
unfolding run
run-AllQuiet [] k q = q
run-AllQuiet (c ∷ cs) k q = run-AllQuiet cs (perform c k) (perform-AllQuiet c k q)
