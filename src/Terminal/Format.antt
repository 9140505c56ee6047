-- ===== src/Terminal/Format.antt =====
-- `Print` in kernel/Core/Terminal.cpp. An argument is a number or a string; `fault` is an argument of the
-- other kind or none, a write behind the array of a number's digits, and the negation of the least signed
-- number, which overflows.
pub mod Numbers
mod Tests
use baby_osv.Base.{
  ℕ, zero, suc, ◌+◌, ◌-◌, ◌*◌, ◌/◌, ◌%◌, ◌^◌, Bool, true, false, ◌&&◌, ◌||◌, Option, none, some,
  List, [], ◌∷◌, ◌++◌, ltb, leb, ◌==◌, if◌then◌else◌, replicate, drop, sub32, u32_mod,
}
use baby_osv.Base.Outcome.{Outcome, ok, fault, ◌>>=◌}
use baby_osv.Terminal.{Terminal, put_string}

pub data Arg : Type 0 where
  number : ℕ → Arg
  text : List ℕ → Arg

-- `"0123456789ABCDEF"[d]`
abbrev pub hex_digit : ℕ → ℕ
hex_digit d = if ltb d 10 then b'0' + d else b'A' + (d - 10)

-- The digits of a number, from the highest of its 32 bits on.
unfoldable pub hex_digits : ℕ → ℕ → List ℕ
hex_digits zero v = []
hex_digits (suc n) v = hex_digit (v / 2 ^ 28) ∷ hex_digits n (v * 16 % u32_mod)

-- The first loop over decimal digits, with `room` more bytes in `tmp`; they stand in the order in which the
-- second loop puts them out, the last one first.
unfoldable pub fill : ℕ → ℕ → List ℕ → Outcome (List ℕ)
fill zero v written = fault
fill (suc room) v written = elim (ltb 0 (v / 10)) [
  | true ↦ fill room (v / 10) ((b'0' + v % 10) ∷ written)
  | false ↦ ok ((b'0' + v % 10) ∷ written)
]

unfoldable pub decimal : ℕ → Outcome (List ℕ)
unfolding fill
decimal v = fill 11 v []

-- `%d`
unfoldable pub signed_decimal : ℕ → Outcome (List ℕ)
unfolding decimal
signed_decimal v = elim (v == 2 ^ 31) [
  | true ↦ fault
  | false ↦ elim (leb (2 ^ 31) v) [
    | true ↦ decimal (sub32 0 v) >>= λ ds. ok (b'-' ∷ ds)
    | false ↦ decimal v
  ]
]

abbrev pub convert_number : ℕ → ℕ → Outcome (List ℕ)
convert_number c v =
    if c == b'c'
    then ok ((v % 256) ∷ [])
    else if c == b'X'
    then ok (drop 6 (hex_digits 8 v))
    else if (c == b'p') || (c == b'x')
    then ok (hex_digits 8 v)
    else if c == b'd'
    then signed_decimal v
    else decimal v

abbrev pub is_number_format : ℕ → Bool
is_number_format c =
    (c == b'c') || (c == b'p') || (c == b'x') || (c == b'X') || (c == b'u') || (c == b'd')

abbrev pub convert_with : ℕ → List Arg → Outcome (List ℕ × List Arg)
convert_with c [] = fault
convert_with c (number v ∷ args) =
    if is_number_format c then (convert_number c v >>= λ s. ok (s, args)) else fault
convert_with c (text s ∷ args) = if is_number_format c then fault else ok (s, args)

-- What is put out for the character behind a `%`, and the arguments that are left.
unfoldable pub convert : ℕ → List Arg → Outcome (List ℕ × List Arg)
unfolding hex_digits decimal signed_decimal
convert c args =
    if is_number_format c || (c == b's') then convert_with c args else ok (b'%' ∷ c ∷ [], args)

abbrev pub then_put : List ℕ → Outcome (List ℕ) → Outcome (List ℕ)
then_put s more = more >>= λ rest. ok (s ++ rest)

-- The loop of `PrintInternal`; `is_format` stays set behind `%%`.
unfoldable pub format : Bool → List ℕ → List Arg → Outcome (List ℕ)
unfolding convert
format is_format [] args = ok []
format is_format (c ∷ fmt) args = elim (c == b'%') [
  | true ↦ elim is_format [
    | true ↦ then_put (c ∷ []) (format true fmt args)
    | false ↦ format true fmt args
  ]
  | false ↦ elim is_format [
    | true ↦ convert c args >>= λ (s, left). then_put s (format false fmt left)
    | false ↦ then_put (c ∷ []) (format false fmt args)
  ]
]

unfoldable pub print : List ℕ → List Arg → Terminal → Outcome (ℕ × Terminal)
unfolding format put_string
print fmt args t = format false fmt args >>= λ s. ok (put_string s t)

unfoldable pub print_with_padding : ℕ → List ℕ → List Arg → Terminal → Outcome (ℕ × Terminal)
unfolding print put_string
print_with_padding pad fmt args t =
    print fmt args t >>= λ (len, u). ok (len, (put_string (replicate (pad - len) b' ') u).1)

unfoldable pub put_hex : ℕ → Terminal → Outcome (ℕ × Terminal)
unfolding print
put_hex v t = print (b'%' ∷ b'x' ∷ []) (number v ∷ []) t
