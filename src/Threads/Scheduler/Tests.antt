-- ===== src/Threads/Scheduler/Tests.antt =====
-- The scheduler on three threads.
use baby_osv.Base.{◌≡◌, refl, ◌≢◌, update, List, [], ◌∷◌, arith}
use baby_osv.Threads.Scheduler.{
  running, Machine, next_thread, enlist, raise, set_state, init, put_back, choose,
}
use baby_osv.Threads.Scheduler.Turns.{switches, Turn, switches-Turn}
use baby_osv.Threads.Scheduler.Waiting.{Kernel, Call, enlists, raises, perform, run}
use baby_osv.Threads.Scheduler.Lost.{AllQuiet, waiter_never_runs}

abbrev three : Machine
three = record {
  current_thread = 1;
  state = λ _. running;
  threads = 2 ∷ 3 ∷ [];
  threads_queue = [];
}

abbrev kernel : Kernel
kernel = record { machine = three; signals = λ _. init }

-- Two switches make the third thread the current one.
two_switches : (next_thread (next_thread three)).current_thread ≡ 3
unfolding next_thread put_back choose update
two_switches = refl

switches-Turn_example : Turn 3 (1 ∷ 2 ∷ []) (switches 2 three)
switches-Turn_example = switches-Turn (2 ∷ []) 3 [] three refl refl

abbrev calls : List Call
calls = raises 9 ∷ Call.switches ∷ Call.switches ∷ []

waiter_never_runs_example :
    (run (enlists 9 ∷ Call.switches ∷ calls) kernel).machine.current_thread ≢ 1
unfolding init
waiter_never_runs_example = waiter_never_runs 9 kernel calls refl (λ e. ground (arith, e)) refl refl

kernel-AllQuiet : AllQuiet kernel
unfolding init
kernel-AllQuiet a h = refl

-- A `Raise` from an interrupt before the switch keeps the thread in the turn.
raised_between :
    (run
      (enlists 9 ∷ raises 9 ∷ Call.switches ∷ Call.switches ∷ Call.switches ∷ [])
      kernel).machine.current_thread
    ≡ 1
unfolding run perform enlist raise next_thread set_state put_back choose update init
raised_between = refl
