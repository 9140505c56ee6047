-- ===== src/Threads/Scheduler.antt =====
-- kernel/Core/Thread.cpp, without the stacks and registers, and kernel/Core/Signal.cpp. A thread is the
-- address of its structure. `threads` is the array that `_NextThread` reads, `threads_queue` the list
-- that `SetState` writes; each is the list of its elements. Interrupts are off inside every call, so a
-- call is one step, but for `Wait`, which enables them before it calls `NextThread` and is two;
-- `currentThread` is never `nullptr` after `Init`.
pub mod Places
pub mod Turns
pub mod Waiting
pub mod Lost
mod Tests
use baby_osv.Base.{
  ℕ, zero, suc, Bool, true, false, not, ◌&&◌, ◌||◌, List, [], ◌∷◌, ◌++◌, ◌==◌, if◌then◌else◌,
  update,
}

-- `Thread::State`
pub data State : Type 0 where
  created running waiting zombie unstoppable : State

abbrev pub same_state : State → State → Bool
same_state created created = true
same_state running running = true
same_state waiting waiting = true
same_state zombie zombie = true
same_state unstoppable unstoppable = true
same_state _ _ = false

pub record Machine : Type 0 where
  pub current_thread : ℕ
  pub state : ℕ → State
  pub threads : List ℕ
  pub threads_queue : List ℕ

abbrev pub contains : ℕ → List ℕ → Bool
contains t [] = false
contains t (x ∷ xs) = (x == t) || contains t xs

-- `List::Remove`: every element that is equal goes.
abbrev pub remove : ℕ → List ℕ → List ℕ
remove t [] = []
remove t (x ∷ xs) = let rest = remove t xs in if x == t then rest else x ∷ rest

abbrev pub enqueue : ℕ → List ℕ → List ℕ
enqueue t queue = if contains t queue then queue else queue ++ (t ∷ [])

-- The `switch` of `SetState`.
abbrev pub requeue : State → ℕ → List ℕ → List ℕ
requeue created t queue = queue
requeue running t queue = enqueue t queue
requeue unstoppable t queue = enqueue t queue
requeue waiting t queue = remove t queue
requeue zombie t queue = remove t queue

-- `SetState` for a thread that is not `nullptr`.
unfoldable pub set_state : ℕ → State → Machine → Machine
set_state t s m =
    if same_state (m.state t) s
    then m
    else record m { state = update m.state t s; threads_queue = requeue s t m.threads_queue }

-- The current thread goes to the back if it is `Running`.
unfoldable pub put_back : Machine → List ℕ
put_back m =
    if same_state (m.state m.current_thread) running
    then m.threads ++ (m.current_thread ∷ [])
    else m.threads

-- The end of `_NextThread`; the array is not empty here, so the idle thread is never chosen so.
unfoldable pub choose : List ℕ → Machine → Machine
choose [] m = m
choose (t ∷ ts) m = record m { current_thread = t; state = update m.state t running; threads = ts }

-- `_NextThread`, which `NextThread` and the timer call.
unfoldable pub next_thread : Machine → Machine
unfolding put_back choose
next_thread m = elim m.threads [
  | [] ↦ m
  | x ∷ xs ↦ if same_state (m.state m.current_thread) unstoppable then m else choose (put_back m) m
]

-- `Create`, as far as the scheduler is concerned, for the structure at `t`.
unfoldable pub create : ℕ → Machine → Machine
create t m = record m { state = update m.state t running; threads = m.threads ++ (t ∷ []) }

unfoldable pub start : ℕ → Machine → Machine
unfolding set_state
start t m = set_state t running m

unfoldable pub pause : ℕ → Machine → Machine
unfolding set_state
pause t m = set_state t waiting m

abbrev pub wake_all : List ℕ → Machine → Machine
wake_all [] m = m
wake_all (t ∷ ts) m = wake_all ts (set_state t running m)

-- `Kill`, for a thread with the given `deathQueue`.
unfoldable pub kill : ℕ → List ℕ → Machine → Machine
unfolding set_state
kill t death_queue m = wake_all death_queue (set_state t zombie m)

unfoldable pub lock : Machine → Machine
unfolding set_state
lock m = set_state m.current_thread unstoppable m

unfoldable pub unlock : Machine → Machine
unfolding set_state
unlock m = set_state m.current_thread running m

-- Only `PushBack`, `PopFront` and `IsEmpty` touch the list `waitingThreads`.
pub record Signal : Type 0 where
  pub raised : Bool
  pub waiting_threads : List ℕ

unfoldable pub init : Signal
init = record { raised = false; waiting_threads = [] }

-- `Wait` up to the moment that interrupts are enabled again; where the signal was raised, that is all of it.
unfoldable pub enlist : Signal → Machine → Signal × Machine
unfolding set_state
enlist s m = if s.raised then (record s { raised = false }, m) else (
  record s { waiting_threads = s.waiting_threads ++ (m.current_thread ∷ []) },
  set_state m.current_thread waiting m,
)

-- `Wait` without an interrupt before its `NextThread`, up to the moment that another thread runs.
unfoldable pub wait : Signal → Machine → Signal × Machine
unfolding enlist next_thread
wait s m = let (s', m') = enlist s m in if s.raised then (s', m') else (s', next_thread m')

unfoldable pub raise : Signal → Machine → Signal × Machine
unfolding set_state
raise s m = elim s.waiting_threads [
  | [] ↦ (record s { raised = true }, m)
  | t ∷ ts ↦ (record { raised = false; waiting_threads = ts }, set_state t running m)
]

unfoldable pub reset : Signal → Signal
reset s = record s { raised = false }
