-- ===== src/Base/Modulo.antt =====
-- Positions that go round at `n`.
use Prim.Native.Nat.{ℕ, ◌+◌, ◌-◌, ◌%◌, ◌≤◌, ◌<◌}
use mathlib.Core.Path.{◌≡◌, ◌∙◌}
use mathlib.Core.Logic.{◌≢◌}
use native.Mathlib.Nat.{mod-add-mod, mod-eq_of_lt, mod-eq-sub-mod}
use native.Mathlib.Decide.{dec_lt}
use native.Mathlib.Omega.{arith}

-- Below `2 * n` the remainder is found by at most one subtraction.
pub mod_once : (a n : ℕ) → n ≤ a → a < n + n → a % n ≡ a - n
mod_once a n h k = mod-eq-sub-mod {n = a} {m = n} h ∙ mod-eq_of_lt {n = a - n} {m = n} (omega arith)

pub mod_small : (a n : ℕ) → a < n → a % n ≡ a
mod_small a n h = mod-eq_of_lt h

pub mod_shift : (a k n : ℕ) → (a % n + k) % n ≡ (a + k) % n
mod_shift a k n = mod-add-mod a n k

-- Two positions less than a full turn apart differ.
pub mod_apart : (h j k n : ℕ) → h < n → j < k → k < n → (h + j) % n ≢ (h + k) % n
mod_apart h j k n hh jk kn e = elim (dec_lt (h + j) n) [
  | yes p ↦ elim (dec_lt (h + k) n) [
    | yes q ↦ omega (arith, mod_small (h + j) n p, mod_small (h + k) n q)
    | no q ↦ omega (arith, mod_small (h + j) n p, mod_once (h + k) n (omega arith) (omega arith))
  ]
  | no p ↦ omega (
    arith,
    mod_once (h + j) n (omega arith) (omega arith),
    mod_once (h + k) n (omega arith) (omega arith),
  )
]
