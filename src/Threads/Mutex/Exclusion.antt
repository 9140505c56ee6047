-- ===== src/Threads/Mutex/Exclusion.antt =====
-- Threads that lock and unlock one mutex, their rounds interleaved in any way.
use mathlib.Core.Bool.{false≢true}
use baby_osv.Base.{
  ℕ, suc, ◌+◌, ◌<◌, ◌≡◌, refl, ap, ◌∙◌, sym, ◌≢◌, Bool, true, false, not, ◌&&◌, ◌||◌, List, [], ◌∷◌,
  ◌==◌, arith, u32_mod, add32,
}
use baby_osv.Threads.Mutex.{Mutex, init, try_lock, unlock, is_ready}

-- `inside` are the threads whose `Lock` has returned and that have not called `Unlock` since.
pub record World : Type 0 where
  pub mutex : Mutex
  pub inside : ℕ → Bool

abbrev pub enter : (ℕ → Bool) → ℕ → ℕ → Bool
enter inside t u = (t == u) || inside u

abbrev pub leave : (ℕ → Bool) → ℕ → ℕ → Bool
leave inside t u = not (t == u) && inside u

pub data Step : World → World → Type 0 where
  spins :
      (w : World) (t : ℕ)
      → (try_lock w.mutex).0 ≡ false
      → Step w (record w { mutex = (try_lock w.mutex).1 })
  locks :
      (w : World) (t : ℕ)
      → (try_lock w.mutex).0 ≡ true
      → Step w (record { mutex = (try_lock w.mutex).1; inside = enter w.inside t })
  unlocks :
      (w : World) (t : ℕ)
      → w.inside t ≡ true
      → Step w (record { mutex = unlock w.mutex; inside = leave w.inside t })

pub data Reach : World → Type 0 where
  boot : Reach (record { mutex = init; inside = λ _. false })
  later : {w w' : World} → Reach w → Step w w' → Reach w'

-- The mutex is free and no thread is inside, or it is taken and one is.
data Held (w : World) : Type 0 where
  is_free : w.mutex.count ≡ 1 → ((u : ℕ) → w.inside u ≡ false) → Held w
  is_taken : (t : ℕ) → w.mutex.count ≡ 0 → ((u : ℕ) → w.inside u ≡ (t == u)) → Held w

try_lock_free : (m : Mutex) → m.count ≡ 1 → try_lock m ≡ (true, record { count = 0 })
unfolding try_lock
try_lock_free m e = rw e refl

try_lock_taken : (m : Mutex) → m.count ≢ 1 → try_lock m ≡ (false, m)
unfolding try_lock
try_lock_taken m ne = ground arith

Step-Held : {w w' : World} → Step w w' → Held w → Held w'
unfolding unlock
Step-Held (spins w t fails) (is_free one outside) =
    absurd (false≢true (sym fails ∙ ap (λ r. r.0) (try_lock_free w.mutex one)))
Step-Held (spins w t fails) (is_taken h zero_left alone) =
    is_taken h (ap (λ r. r.1.count) (try_lock_taken w.mutex (omega (arith, zero_left))) ∙ zero_left)
      alone
Step-Held (locks w t wins) (is_free one outside) =
    is_taken t (ap (λ r. r.1.count) (try_lock_free w.mutex one)) (λ u. ground (arith, outside u))
Step-Held (locks w t wins) (is_taken h zero_left alone) =
    absurd
      (false≢true (sym (ap (λ r. r.0) (try_lock_taken w.mutex (omega (arith, zero_left)))) ∙ wins))
Step-Held (unlocks w t i) (is_free one outside) = absurd (false≢true (sym (outside t) ∙ i))
Step-Held (unlocks w t i) (is_taken h zero_left alone) =
    is_free (ground (arith, zero_left)) (λ u. ground (arith, alone u, alone t, i))

Reach-Held : {w : World} → Reach w → Held w
unfolding init
Reach-Held boot = is_free refl (λ u. refl)
Reach-Held (later r st) = Step-Held st (Reach-Held r)

-- However the rounds of the threads are interleaved, as long as only a thread inside calls `Unlock`, no
-- two threads are inside at once.
pub mutual_exclusion :
    {w : World} (t u : ℕ) → Reach w → w.inside t ≡ true → w.inside u ≡ true → t ≡ u
mutual_exclusion t u r it iu = elim (Reach-Held r) [
  | is_free one outside ↦ absurd (false≢true (sym (outside t) ∙ it))
  | is_taken h zero_left alone ↦ ground (arith, alone t, alone u)
]

-- However the rounds are interleaved under the same rule, the next round of `Lock` of any thread leaves
-- the loop if no thread is inside, and only then; and `IsReady` tells whether one would.
pub try_lock-Reach :
    {w : World}
    → Reach w
    → (((u : ℕ) → w.inside u ≡ false) → (try_lock w.mutex).0 ≡ true)
      × ((try_lock w.mutex).0 ≡ true → (u : ℕ) → w.inside u ≡ false)
      × (is_ready w.mutex ≡ (try_lock w.mutex).0)
unfolding try_lock is_ready
try_lock-Reach {w} r = elim (Reach-Held r) [
  | is_free one outside ↦ rw one (λ all. refl, λ wins. outside, refl)
  | is_taken h zero_left alone ↦
      (λ all. absurd (ground (arith, alone h, all h)), λ wins. absurd (ground arith), ground arith)
]

-- Rounds of `Lock` and calls of `Unlock` in any order, and whether some round left the loop.
pub data Call : Type 0 where
  attempt release : Call

unfoldable pub some_locks : List Call → Mutex → Bool
some_locks [] m = false
some_locks (attempt ∷ rest) m = (try_lock m).0 || some_locks rest (try_lock m).1
some_locks (release ∷ rest) m = some_locks rest (unlock m)

abbrev pub unlocks_in : List Call → ℕ
unlocks_in [] = 0
unlocks_in (attempt ∷ rest) = unlocks_in rest
unlocks_in (release ∷ rest) = suc (unlocks_in rest)

above_one :
    (calls : List Call) (m : Mutex)
    → 1 < m.count
    → m.count + unlocks_in calls < u32_mod
    → some_locks calls m ≡ false
unfolding some_locks unlock
above_one [] m big fits = refl
above_one (attempt ∷ rest) m big fits =
    rw (try_lock_taken m (omega arith)) (above_one rest m big fits)
above_one (release ∷ rest) m big fits =
    above_one rest (record { count = add32 m.count 1 }) (omega arith) (omega arith)

-- After `Unlock` of a new mutex no round of `Lock` of any thread ever leaves the loop, whatever rounds
-- and calls of `Unlock` follow, as long as those are fewer than 2 ^ 32 - 2.
pub unlock_locks_out :
    (calls : List Call) → unlocks_in calls + 2 < u32_mod → some_locks calls (unlock init) ≡ false
unfolding unlock init
unlock_locks_out calls fits = above_one calls (record { count = 2 }) (omega arith) (omega arith)
