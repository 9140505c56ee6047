-- ===== src/Threads/Scheduler/Places.antt =====
-- How often a thread is scheduled: as the current thread and in the array `threads`.
use baby_osv.Base.{
  ℕ, ◌+◌, ◌≡◌, refl, ap, ◌∙◌, ◌⊎◌, inl, inr, Bool, true, false, List, [], ◌∷◌, ◌++◌, ◌==◌, arith,
  Bool-cases,
}
use baby_osv.Threads.Scheduler.{
  State, created, running, waiting, zombie, unstoppable, same_state, Machine, set_state, put_back,
  choose, next_thread, create, wake_all,
}

abbrev pub one_if : Bool → ℕ
one_if true = 1
one_if false = 0

abbrev pub count : ℕ → List ℕ → ℕ
count t [] = 0
count t (x ∷ xs) = one_if (x == t) + count t xs

pub count-append : (t : ℕ) (xs ys : List ℕ) → count t (xs ++ ys) ≡ count t xs + count t ys
count-append t [] ys = omega arith
count-append t (x ∷ xs) ys = omega (arith, count-append t xs ys)

abbrev pub places : ℕ → Machine → ℕ
places t m = one_if (m.current_thread == t) + count t m.threads

-- `SetState` moves nothing.
pub places-set_state : (t u : ℕ) (s : State) (m : Machine) → places t (set_state u s m) ≡ places t m
unfolding set_state
places-set_state t u s m = elim (Bool-cases (same_state (m.state u) s)) [
  | inl e ↦ rw e refl
  | inr e ↦ rw e refl
]

pub places-wake_all : (t : ℕ) (us : List ℕ) (m : Machine) → places t (wake_all us m) ≡ places t m
places-wake_all t [] m = refl
places-wake_all t (u ∷ us) m =
    places-wake_all t us (set_state u running m) ∙ places-set_state t u running m

pub places-create : (t u : ℕ) (m : Machine) → places t (create u m) ≡ places t m + one_if (u == t)
unfolding create
places-create t u m = omega (arith, count-append t m.threads (u ∷ []))

places-choose :
    (t x : ℕ) (ts : List ℕ) (m : Machine) → places t (choose (x ∷ ts) m) ≡ count t (x ∷ ts)
unfolding choose
places-choose t x ts m = refl

pub cons_cases : (xs : List ℕ) → (xs ≡ []) ⊎ ((x : ℕ) × (ys : List ℕ) × (xs ≡ x ∷ ys))
cons_cases [] = inl refl
cons_cases (x ∷ ys) = inr (x, ys, refl)

pub next_thread-nil : (m : Machine) → m.threads ≡ [] → next_thread m ≡ m
unfolding next_thread
next_thread-nil m e = rw e refl

pub next_thread-locked :
    (m : Machine) → same_state (m.state m.current_thread) unstoppable ≡ true → next_thread m ≡ m
unfolding next_thread
next_thread-locked m locked = elim (cons_cases m.threads) [
  | inl e ↦ rw e refl
  | inr (x, xs, e) ↦ rw (e, locked) refl
]

-- Where the current thread is neither locked nor `Running`, the first thread of the array takes over.
pub next_thread-drops :
    (m : Machine) {x : ℕ} {xs : List ℕ}
    → m.threads ≡ x ∷ xs
    → same_state (m.state m.current_thread) unstoppable ≡ false
    → same_state (m.state m.current_thread) running ≡ false
    → next_thread m ≡ choose (x ∷ xs) m
unfolding next_thread put_back choose
next_thread-drops m e free stopped = rw (e, free, stopped) refl

-- Where the current thread is `Running`, it also goes to the back.
pub next_thread-turns :
    (m : Machine) {x : ℕ} {xs : List ℕ}
    → m.threads ≡ x ∷ xs
    → m.state m.current_thread ≡ running
    → next_thread m ≡ choose (x ∷ xs ++ (m.current_thread ∷ [])) m
unfolding next_thread put_back choose
next_thread-turns m e on = rw (e, on) refl

running_lem : (s : State) → same_state s running ≡ true → s ≡ running
running_lem running e = refl
running_lem created e = cc
running_lem waiting e = cc
running_lem zombie e = cc
running_lem unstoppable e = cc

-- A switch keeps the places of every thread, but for a current thread that is not `Running`, which
-- may lose its place as the current thread.
pub places-next_thread :
    (t : ℕ) (m : Machine)
    → (places t (next_thread m) ≡ places t m)
      ⊎ ((same_state (m.state m.current_thread) running ≡ false)
          × (places t (next_thread m) + one_if (m.current_thread == t) ≡ places t m))
places-next_thread t m = elim (cons_cases m.threads) [
  | inl e ↦ inl (ap (places t) (next_thread-nil m e))
  | inr (x, xs, e) ↦ elim (Bool-cases (same_state (m.state m.current_thread) unstoppable)) [
    | inl locked ↦ inl (ap (places t) (next_thread-locked m locked))
    | inr free ↦ elim (Bool-cases (same_state (m.state m.current_thread) running)) [
      | inl on ↦ inl (
          omega (
            arith,
            ap (places t) (next_thread-turns m e (running_lem _ on)),
            places-choose t x (xs ++ (m.current_thread ∷ [])) m,
            count-append t xs (m.current_thread ∷ []),
            ap (count t) e,
          ))
      | inr off ↦ inr (
        off,
        omega (
          arith,
          ap (places t) (next_thread-drops m e free off),
          places-choose t x xs m,
          ap (count t) e,
        ),
      )
    ]
  ]
]
