-- ===== src/Containers/RingBuffer/Runs.antt =====
-- A ring buffer and the bounded queue answer every sequence of calls alike.
use native.Mathlib.Decide.{dec_lt}
use baby_osv.Base.{ℕ, ◌<◌, ◌≡◌, refl, ap, ◌∙◌, some, none, Option, List, [], ◌∷◌, arith, u32_mod}
use baby_osv.Containers.RingBuffer.{RingBuffer, init, push_back, pop_front}
use baby_osv.Containers.RingBuffer.Refine.{IsValid, contents, init-IsValid, push_back_refines}
use baby_osv.Containers.RingBuffer.Inv.{
  push_back-IsValid, popped-IsValid, pop_front-some, pop_front-none, contents-popped,
}
use baby_osv.Containers.RingBuffer.Spec.{Call, pushes, pops, run_queue}

module _ {ℓ} (limit : ℕ) {A : Type ℓ} where
  unfoldable pub run : RingBuffer A → List (Call A) → List (Option A)
  run r [] = []
  run r (pushes x ∷ cs) = run (push_back limit r x) cs
  run r (pops ∷ cs) = elim (pop_front limit r) [
    | none ↦ none ∷ []
    | some (x, s) ↦ some x ∷ run s cs
  ]

  contents_empty :
      (r : RingBuffer A) → r.size ≡ 0 → contents limit r ≡ record { items = []; lost = r.dropped }
  contents_empty r e = rw e

  run-eq_queue :
      (cs : List (Call A)) {r : RingBuffer A}
      → IsValid limit r
      → run r cs ≡ run_queue limit (contents limit r) cs
  unfolding run run_queue
  run-eq_queue [] v = refl
  run-eq_queue (pushes x ∷ cs) {r} v =
      run-eq_queue cs (push_back-IsValid limit x v)
      ∙ ap (λ q. run_queue limit q cs) (push_back_refines limit x v)
  run-eq_queue (pops ∷ cs) {r} v = elim (dec_lt 0 r.size) [
    | yes p ↦
        rw (pop_front-some limit r p, contents-popped limit v p, run)
          (ap (λ l. some (r.objs r.read) ∷ l) (run-eq_queue cs (popped-IsValid limit v p)))
    | no q ↦ rw (pop_front-none limit r (omega arith), run, contents_empty r (omega arith))
  ]

  -- Of every sequence of `PushBack` and `PopFront` calls on a new ring buffer, for a positive limit
  -- below 2 ^ 32, each pop returns what the bounded queue that drops its oldest object returns, and
  -- fails where that queue is empty.
  pub run_refines :
      (objs : ℕ → A) (cs : List (Call A))
      → 0 < limit
      → limit < u32_mod
      → run (init objs) cs ≡ run_queue limit (record { items = []; lost = 0 }) cs
  unfolding init
  run_refines objs cs p w = run-eq_queue cs (init-IsValid limit objs p w)
