-- ===== src/Terminal/Format/Numbers.antt =====
-- The numbers that `Print` puts out, read back.
use baby_osv.Base.{
  ℕ, zero, suc, ◌+◌, ◌-◌, ◌*◌, ◌/◌, ◌%◌, ◌^◌, ◌<◌, ◌≤◌, ◌≡◌, refl, ap, ◌∙◌, true, false, List, [],
  ◌∷◌, ltb, leb, if◌then◌else◌, ◌==◌, ◌⊎◌, subst, sub32, arith, Bool-cases, inl, inr, u32_mod,
  length,
}
use baby_osv.Base.Outcome.{Outcome, ok, ◌>>=◌}
use baby_osv.Terminal.Format.{
  Arg, number, hex_digit, hex_digits, fill, decimal, signed_decimal, convert, format, then_put,
}

-- The number that decimal digits stand for, behind those of `before`.
abbrev pub decimal_value : ℕ → List ℕ → ℕ
decimal_value before [] = before
decimal_value before (c ∷ cs) = decimal_value (before * 10 + (c - b'0')) cs

abbrev pub hex_digit_value : ℕ → ℕ
hex_digit_value c = if ltb c b'A' then c - b'0' else c - b'A' + 10

abbrev pub hex_value : ℕ → List ℕ → ℕ
hex_value before [] = before
hex_value before (c ∷ cs) = hex_value (before * 16 + hex_digit_value c) cs

abbrev power : ℕ → ℕ → ℕ
power b zero = 1
power b (suc n) = b * power b n

abbrev pub IsDigit : ℕ → Type 0
IsDigit c = (b'0' ≤ c) × (c ≤ b'9')

abbrev pub AllDigits : List ℕ → Type 0
AllDigits [] = Unit
AllDigits (c ∷ cs) = IsDigit c × AllDigits cs

-- The first character is above the digit 0.
abbrev pub IsLed : List ℕ → Type 0
IsLed [] = ⊥
IsLed (c ∷ cs) = b'0' < c

-- How a number is written with decimal digits: 0 is one digit, and another number begins with none.
abbrev pub IsDecimal : ℕ → List ℕ → Type 0
IsDecimal v ds =
    AllDigits ds × (v ≡ 0 → ds ≡ b'0' ∷ []) × (0 < v → IsLed ds) × (decimal_value 0 ds ≡ v)

abbrev pub IsHexDigit : ℕ → Type 0
IsHexDigit c = IsDigit c ⊎ ((b'A' ≤ c) × (c ≤ b'F'))

abbrev pub AllHexDigits : List ℕ → Type 0
AllHexDigits [] = Unit
AllHexDigits (c ∷ cs) = IsHexDigit c × AllHexDigits cs

fill_lem :
    (room v : ℕ) (written : List ℕ)
    → v < power 10 room
    → 0 < room
    → AllDigits written
    → (ds : List ℕ) × (fill room v written ≡ ok ds)
      × (decimal_value 0 ds ≡ decimal_value v written)
      × AllDigits ds
      × (0 < v → IsLed ds)
      × (v ≡ 0 → ds ≡ b'0' ∷ written)
unfolding fill
fill_lem zero v written small some_room digits = absurd (omega (arith, some_room))
fill_lem (suc room) v written small some_room digits = elim (Bool-cases (ltb 0 (v / 10))) [
  | inl e ↦
      let more : 0 < v / 10 = ground (arith, e) in
      let (ds, is_filled, same, all, led, one) =
        fill_lem room (v / 10) ((b'0' + v % 10) ∷ written) (omega (arith, small))
          (room_left room v small more) ((omega arith, omega arith), digits) in
      (
        ds,
        rw (fill, e) is_filled,
        same ∙ ap (λ n. decimal_value n written) (omega arith),
        all,
        λ l. led more,
        λ z. absurd (omega (arith, z, more)),
      )
  | inr e ↦
      let less : v < 10 = ground (arith, e) in
      (
        (b'0' + v % 10) ∷ written,
        rw (fill, e) refl,
        ap (λ n. decimal_value n written) (omega (arith, less)),
        ((omega arith, omega arith), digits),
        λ l. omega (arith, less, l),
        λ z. ap (λ c. c ∷ written) (omega (arith, z)),
      )
]
  where
    room_left : (room v : ℕ) → v < 10 * power 10 room → 0 < v / 10 → 0 < room
    room_left zero v small more = absurd (omega (arith, small, more))
    room_left (suc room) v small more = omega arith

hex_digit-IsHexDigit : (d : ℕ) → d < 16 → IsHexDigit (hex_digit d)
hex_digit-IsHexDigit d small = elim (Bool-cases (ltb d 10)) [
  | inl e ↦ let less : d < 10 = ground (arith, e) in rw e (inl (omega arith, omega (arith, less)))
  | inr e ↦
      let more : 10 ≤ d = ground (arith, e) in
      rw e (inr (omega (arith, more), omega (arith, more, small)))
]

hex_digits-AllHexDigits : (n v : ℕ) → v < u32_mod → AllHexDigits (hex_digits n v)
unfolding hex_digits
hex_digits-AllHexDigits zero v small = tt
hex_digits-AllHexDigits (suc n) v small = (
  hex_digit-IsHexDigit (v / 2 ^ 28) (omega (arith, small)),
  hex_digits-AllHexDigits n (v * 16 % u32_mod) (omega arith),
)

hex_digit_value-hex_digit : (d : ℕ) → d < 16 → hex_digit_value (hex_digit d) ≡ d
hex_digit_value-hex_digit d small = ground (arith, small)

-- What follows the highest digit.
rest_of :
    (v p before : ℕ)
    → v < u32_mod
    → (before * 16 + v / 2 ^ 28) * p + v * 16 % u32_mod * p / u32_mod
      ≡ before * (16 * p) + v * (16 * p) / u32_mod
rest_of v p before small =
    let split : v * 16 ≡ v / 2 ^ 28 * u32_mod + v * 16 % u32_mod = omega (arith, small) in
    omega (arith, ap (λ (t : ℕ). t * p) split)

hex_digits_lem :
    (n v before : ℕ)
    → v < u32_mod
    → hex_value before (hex_digits n v) ≡ before * power 16 n + v * power 16 n / u32_mod
unfolding hex_digits
hex_digits_lem zero v before small = omega (arith, small)
hex_digits_lem (suc n) v before small =
    ap (λ d. hex_value (before * 16 + d) (hex_digits n (v * 16 % u32_mod)))
      (hex_digit_value-hex_digit (v / 2 ^ 28) (omega (arith, small)))
    ∙ hex_digits_lem n (v * 16 % u32_mod) (before * 16 + v / 2 ^ 28) (omega arith)
    ∙ rest_of v (power 16 n) before small

decimal_lem : (v : ℕ) → v < u32_mod → (ds : List ℕ) × (decimal v ≡ ok ds) × IsDecimal v ds
unfolding decimal
decimal_lem v small =
    let (ds, is_filled, value, all, led, one) =
      fill_lem 11 v [] (omega (arith, small)) (omega arith) tt in
    (ds, is_filled, (all, one, led, value))

signed_decimal-low : (v : ℕ) → v < 2 ^ 31 → signed_decimal v ≡ decimal v
unfolding signed_decimal
signed_decimal-low v low =
    let least : v == 2 ^ 31 ≡ false = ground (arith, low) in
    let test : leb (2 ^ 31) v ≡ false = ground (arith, low) in rw (signed_decimal, least, test) refl

signed_decimal-high :
    (v : ℕ) → 2 ^ 31 < v → signed_decimal v ≡ (decimal (sub32 0 v) >>= λ ds. ok (b'-' ∷ ds))
unfolding signed_decimal
signed_decimal-high v high =
    let least : v == 2 ^ 31 ≡ false = ground (arith, high) in
    let test : leb (2 ^ 31) v ≡ true = ground (arith, high) in rw (signed_decimal, least, test) refl

-- Behind a `%`, `Print` puts out for `u` the decimal digits of a 32-bit number, one at least and no 0 in
-- front of others, and for `x` eight hexadecimal digits (0 to 9 and A to F), which read back give the number.
-- For `d` it puts out the decimal digits of a number that is not negative as a signed one, and a minus sign
-- and those of its absolute value for a negative one, but for the least, 2^31, whose negation overflows in
-- the source. What follows in the format is put out behind them, and no digit is written outside of the array.
pub format-number :
    (v : ℕ) (fmt : List ℕ) (args : List Arg)
    → v < u32_mod
    → ((ds : List ℕ) × IsDecimal v ds
        × (format false (b'%' ∷ b'u' ∷ fmt) (number v ∷ args)
            ≡ then_put ds (format false fmt args)))
      × ((ds : List ℕ) × (hex_value 0 ds ≡ v)
          × AllHexDigits ds
          × (length ds ≡ 8)
          × (format false (b'%' ∷ b'x' ∷ fmt) (number v ∷ args)
              ≡ then_put ds (format false fmt args)))
      × (v < 2 ^ 31
          → (ds : List ℕ) × IsDecimal v ds
            × (format false (b'%' ∷ b'd' ∷ fmt) (number v ∷ args)
                ≡ then_put ds (format false fmt args)))
      × (2 ^ 31 < v
          → (ds : List ℕ) × IsDecimal (2 ^ 32 - v) ds
            × (format false (b'%' ∷ b'd' ∷ fmt) (number v ∷ args)
                ≡ then_put (b'-' ∷ ds) (format false fmt args)))
unfolding format convert hex_digits
format-number v fmt args small =
    let put = λ (r : Outcome (List ℕ)).
      (r >>= λ s. ok (s, args)) >>= λ (s, left). then_put s (format false fmt left) in
    let (ds, is_decimal, digits) = decimal_lem v small in
    (
      (ds, digits, ap put is_decimal),
      (
        hex_digits 8 v,
        hex_digits_lem 8 v 0 small ∙ omega (arith, small),
        hex_digits-AllHexDigits 8 v small,
        refl,
        refl,
      ),
      (λ low. (ds, digits, ap put (signed_decimal-low v low ∙ is_decimal))),
      (λ high.
          let (es, is_negated, negated) = decimal_lem (sub32 0 v) (omega arith) in
          (
            es,
            subst (λ n. IsDecimal n es) (omega (arith, high, small)) negated,
            ap put (signed_decimal-high v high ∙ ap (λ r. r >>= λ ds. ok (b'-' ∷ ds)) is_negated),
          )),
    )
