-- ===== src/Threads/Scheduler/Waiting.antt =====
-- Any sequence of calls of the scheduler and of signals, and what becomes of a thread that waits.
use baby_osv.Base.{ℕ, ◌+◌, ◌≤◌, ◌≡◌, refl, inl, inr, List, [], ◌∷◌, ◌==◌, arith, Bool-cases, update}
use baby_osv.Threads.Scheduler.{
  running, waiting, zombie, unstoppable, Machine, set_state, next_thread, create, kill, start,
  pause, lock, unlock, Signal, enlist, raise, reset,
}
use baby_osv.Threads.Scheduler.Places.{
  one_if, places, places-set_state, places-wake_all, places-create, places-next_thread, cons_cases,
}

-- The scheduler and the signals, each by its address.
pub record Kernel : Type 0 where
  pub machine : Machine
  pub signals : ℕ → Signal

-- A step: `enlists` is `Wait` up to its `NextThread`, and `switches` that one or the timer's.
pub data Call : Type 0 where
  switches : Call
  creates starts pauses : ℕ → Call
  kills : ℕ → List ℕ → Call
  locks unlocks : Call
  enlists raises resets : ℕ → Call

abbrev pub on_signal : Kernel → ℕ → Signal × Machine → Kernel
on_signal k a (s, m) = record { machine = m; signals = update k.signals a s }

unfoldable pub perform : Call → Kernel → Kernel
perform switches k = record k { machine = next_thread k.machine }
perform (creates t) k = record k { machine = create t k.machine }
perform (starts t) k = record k { machine = start t k.machine }
perform (pauses t) k = record k { machine = pause t k.machine }
perform (kills t death_queue) k = record k { machine = kill t death_queue k.machine }
perform locks k = record k { machine = lock k.machine }
perform unlocks k = record k { machine = unlock k.machine }
perform (enlists a) k = on_signal k a (enlist (k.signals a) k.machine)
perform (raises a) k = on_signal k a (raise (k.signals a) k.machine)
perform (resets a) k = record k { signals = update k.signals a (reset (k.signals a)) }

unfoldable pub run : List Call → Kernel → Kernel
unfolding perform
run [] k = k
run (c ∷ cs) k = run cs (perform c k)

-- The places that a call gives a thread.
abbrev pub gives : ℕ → Call → ℕ
gives t (creates u) = one_if (u == t)
gives t _ = 0

places-enlist : (t : ℕ) (s : Signal) (m : Machine) → places t (enlist s m).1 ≡ places t m
unfolding enlist
places-enlist t s m = elim (Bool-cases s.raised) [
  | inl e ↦ rw e refl
  | inr e ↦ rw e (places-set_state t m.current_thread waiting m)
]

places-raise : (t : ℕ) (s : Signal) (m : Machine) → places t (raise s m).1 ≡ places t m
unfolding raise
places-raise t s m = elim (cons_cases s.waiting_threads) [
  | inl e ↦ rw e refl
  | inr (u, us, e) ↦ rw e (places-set_state t u running m)
]

-- No call but `Create` gives a thread a place.
pub places-perform :
    (t : ℕ) (c : Call) (k : Kernel)
    → places t (perform c k).machine ≤ places t k.machine + gives t c
unfolding perform start pause kill lock unlock
places-perform t switches k = elim (places-next_thread t k.machine) [
  | inl same ↦ omega (arith, same)
  | inr (_, less) ↦ omega (arith, less)
]
places-perform t (creates u) k = omega (arith, places-create t u k.machine)
places-perform t (starts u) k = omega (arith, places-set_state t u running k.machine)
places-perform t (pauses u) k = omega (arith, places-set_state t u waiting k.machine)
places-perform t (kills u us) k = omega (
  arith,
  places-wake_all t us (set_state u zombie k.machine),
  places-set_state t u zombie k.machine,
)
places-perform t locks k =
    omega (arith, places-set_state t k.machine.current_thread unstoppable k.machine)
places-perform t unlocks k =
    omega (arith, places-set_state t k.machine.current_thread running k.machine)
places-perform t (enlists a) k = omega (arith, places-enlist t (k.signals a) k.machine)
places-perform t (raises a) k = omega (arith, places-raise t (k.signals a) k.machine)
places-perform t (resets a) k = omega arith

abbrev pub given : ℕ → List Call → ℕ
given t [] = 0
given t (c ∷ cs) = gives t c + given t cs

-- Whatever calls are made, a thread has at most as many places, as the current thread and in the array
-- `threads`, as it had before and as `Create` has added for its structure.
pub places-run :
    (t : ℕ) (cs : List Call) (k : Kernel)
    → places t (run cs k).machine ≤ places t k.machine + given t cs
unfolding run
places-run t [] k = omega arith
places-run t (c ∷ cs) k = omega (arith, places-run t cs (perform c k), places-perform t c k)
