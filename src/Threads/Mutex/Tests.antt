-- ===== src/Threads/Mutex/Tests.antt =====
-- A mutex on concrete interleavings.
use baby_osv.Base.{ℕ, ◌≡◌, refl, false}
use baby_osv.Threads.Mutex.{init, try_lock}
use baby_osv.Threads.Mutex.Exclusion.{
  World, enter, spins, locks, Reach, boot, later, mutual_exclusion,
}

-- Thread 7 has the mutex, and thread 8 has tried to get it.
abbrev one_inside : World
one_inside = record { mutex = record { count = 0 }; inside = enter (λ _. false) 7 }

one_inside-Reach : Reach one_inside
unfolding try_lock init
one_inside-Reach = later (later boot (locks _ 7 refl)) (spins _ 8 refl)

mutual_exclusion_example : ◌≡◌ {A = ℕ} 7 7
mutual_exclusion_example = mutual_exclusion 7 7 one_inside-Reach refl refl
