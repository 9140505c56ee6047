-- ===== src/Threads/Mutex.antt =====
-- kernel/Core/Mutex.cpp. `Lock` is a loop whose rounds are one atomic `cmpxchg` each, and `Unlock` one
-- increment; a round is therefore a step of the model.
pub mod Exclusion
mod Tests
use baby_osv.Base.{ℕ, ◌+◌, Bool, true, false, ltb, ◌==◌, if◌then◌else◌, add32}

pub record Mutex : Type 0 where
  pub count : ℕ

unfoldable pub init : Mutex
init = record { count = 1 }

-- One round of `Lock`: whether it leaves the loop, and the mutex.
unfoldable pub try_lock : Mutex → Bool × Mutex
try_lock m = if m.count == 1 then (true, record { count = 0 }) else (false, m)

unfoldable pub unlock : Mutex → Mutex
unlock m = record { count = add32 m.count 1 }

unfoldable pub is_ready : Mutex → Bool
is_ready m = ltb 0 m.count
