-- ===== src/Containers/RingBuffer/Tests.antt =====
-- Runs of the ring buffer, and the theorems at concrete inputs.
use baby_osv.Base.{ℕ, ◌≡◌, refl, some, none, List, [], ◌∷◌, arith, update}
use baby_osv.Containers.RingBuffer.{init, push_back, pop_front}
use baby_osv.Containers.RingBuffer.Runs.{run, run_refines}
use baby_osv.Containers.RingBuffer.Spec.{Call, pushes, pops, run_queue}

-- Three objects through a buffer for two: the first is dropped.
abbrev calls : List (Call ℕ)
calls = pushes 1 ∷ pushes 2 ∷ pushes 3 ∷ pops ∷ pops ∷ pops ∷ []

run_drops : run 2 (init (λ _. 0)) calls ≡ some 2 ∷ some 3 ∷ none ∷ []
unfolding run init push_back pop_front update
run_drops = refl

run_refines_example :
    run 2 (init (λ _. 0)) calls ≡ run_queue 2 (record { items = []; lost = 0 }) calls
run_refines_example = run_refines 2 (λ _. 0) calls (omega arith) (omega arith)
