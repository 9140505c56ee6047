-- ===== src/Digits.antt =====
-- `|` of a number whose low bits are clear with a number of only low bits.
use Prim.Native.Nat.{bit_or, digits, bit_or-bitwise, max}
use baby_osv.Base.{ℕ, zero, suc, ◌+◌, ◌*◌, ◌/◌, ◌%◌, ◌≤◌, ◌<◌, ◌≡◌, refl, ap, ap₂, ◌∙◌, arith}

abbrev or_digits : ℕ → ℕ → ℕ → ℕ
or_digits n a b = digits (λ b. b) max n a b

-- The digits do not depend on how many there may be.
or_digits_enough : (n m a b : ℕ) → a ≤ n → a ≤ m → or_digits n a b ≡ or_digits m a b
or_digits_enough zero zero a b p q = refl
or_digits_enough zero (suc m) zero b p q = refl
or_digits_enough zero (suc m) (suc a) b p q = absurd (omega arith)
or_digits_enough (suc n) zero zero b p q = refl
or_digits_enough (suc n) zero (suc a) b p q = absurd (omega arith)
or_digits_enough (suc n) (suc m) zero b p q = refl
or_digits_enough (suc n) (suc m) (suc a) b p q =
    omega (arith, or_digits_enough n m (suc a / 2) (b / 2) (omega arith) (omega arith))

or_zero_left : (b : ℕ) → bit_or 0 b ≡ b
or_zero_left b = bit_or-bitwise 0 b

or_halves : (a b : ℕ) → bit_or a b ≡ bit_or (a / 2) (b / 2) * 2 + max (a % 2) (b % 2)
or_halves zero b = omega (arith, or_zero_left b, or_zero_left (b / 2))
or_halves (suc a) b = omega (
  arith,
  bit_or-bitwise (suc a) b,
  bit_or-bitwise (suc a / 2) (b / 2),
  or_digits_enough a (suc a / 2) (suc a / 2) (b / 2) (omega arith) (omega arith),
)

or_zero_below : (n a : ℕ) → a ≤ n → bit_or a 0 ≡ a
or_zero_below n zero h = refl
or_zero_below zero (suc a) h = absurd (omega arith)
or_zero_below (suc n) (suc a) h =
    omega (arith, or_halves (suc a) 0, or_zero_below n (suc a / 2) (omega arith))

-- `a * 2 ^ k`, and `2 ^ k`, by doubling.
abbrev shift_up : ℕ → ℕ → ℕ
shift_up zero a = a
shift_up (suc k) a = 2 * shift_up k a

or_fields : (k a b : ℕ) → b < shift_up k 1 → bit_or (shift_up k a) b ≡ shift_up k a + b
or_fields zero a b h = omega (arith, ap (bit_or a) zero_only, or_zero_below a a (omega arith))
  where
    zero_only : b ≡ 0
    zero_only = omega arith
or_fields (suc k) a b h =
    omega (arith, or_halves (2 * shift_up k a) b, or_fields k a (b / 2) (omega arith), even)
  where
    even : bit_or (2 * shift_up k a / 2) (b / 2) ≡ bit_or (shift_up k a) (b / 2)
    even = ap (λ (n : ℕ). bit_or n (b / 2)) (omega arith)

-- Twelve low bits: the even entries of the table.
pub or_twelve : (a b : ℕ) → b < 4096 → bit_or (a * 4096) b ≡ a * 4096 + b
or_twelve a b h =
    ap (λ (n : ℕ). bit_or n b) {x = a * 4096} {y = shift_up 12 a} (omega arith)
    ∙ or_fields 12 a b (omega arith)
    ∙ omega arith

-- Twenty-two low bits: the addresses that one table maps.
pub or_table : (a b : ℕ) → b < 4194304 → bit_or (a * 4194304) b ≡ a * 4194304 + b
or_table a b h =
    ap (λ (n : ℕ). bit_or n b) {x = a * 4194304} {y = shift_up 22 a} (omega arith)
    ∙ or_fields 22 a b (omega arith)
    ∙ omega arith

or_shifted : (k a b : ℕ) → bit_or (shift_up k a) (shift_up k b) ≡ shift_up k (bit_or a b)
or_shifted zero a b = refl
or_shifted (suc k) a b =
    omega (arith, or_halves (2 * shift_up k a) (2 * shift_up k b), or_shifted k a b, even)
  where
    even :
        bit_or (2 * shift_up k a / 2) (2 * shift_up k b / 2) ≡ bit_or (shift_up k a) (shift_up k b)
    even = ap₂ bit_or (omega arith) (omega arith)

-- An odd number has the lowest bit already.
pub or_carry : (a : ℕ) → a % 2 ≡ 1 → bit_or (a * 4194304) 4194304 ≡ a * 4194304
or_carry a odd =
    ap (λ (n : ℕ). bit_or n 4194304) {x = a * 4194304} {y = shift_up 22 a} (omega arith)
    ∙ or_shifted 22 a 1
    ∙ ap (shift_up 22) or_one
    ∙ omega arith
  where
    or_one : bit_or a 1 ≡ a
    or_one = omega (arith, odd, or_halves a 1, or_zero_below (a / 2) (a / 2) (omega arith))
