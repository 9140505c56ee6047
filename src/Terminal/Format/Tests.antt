-- ===== src/Terminal/Format/Tests.antt =====
-- Numbers on the screen.
use baby_osv.Base.{ℕ, ◌-◌, ◌^◌, ◌<◌, ◌≡◌, refl, false, List, [], ◌∷◌, arith, length}
use baby_osv.Base.Outcome.{ok}
use baby_osv.Terminal.Format.{number, text, format, then_put}
use baby_osv.Terminal.Format.Numbers.{IsDecimal, AllHexDigits, hex_value, format-number}

-- `Print("%d:%s", -25, "AB")`
minus :
    format false
      (b'%' ∷ b'd' ∷ b':' ∷ b'%' ∷ b's' ∷ [])
      (number 0xffffffe7 ∷ text (65 ∷ 66 ∷ []) ∷ [])
    ≡ ok (b'-' ∷ b'2' ∷ b'5' ∷ b':' ∷ 65 ∷ 66 ∷ [])
unfolding format
minus = refl

-- `Print("5%% ")` puts the percent sign out twice.
percent : format false (b'5' ∷ b'%' ∷ b'%' ∷ b' ' ∷ []) [] ≡ ok (b'5' ∷ b'%' ∷ b'%' ∷ b' ' ∷ [])
unfolding format
percent = refl

format-number_example :
    ((ds : List ℕ) × IsDecimal 4000000000 ds
      × (format false (b'%' ∷ b'u' ∷ b';' ∷ []) (number 4000000000 ∷ [])
          ≡ then_put ds (format false (b';' ∷ []) [])))
    × ((ds : List ℕ) × (hex_value 0 ds ≡ 4000000000)
        × AllHexDigits ds
        × (length ds ≡ 8)
        × (format false (b'%' ∷ b'x' ∷ b';' ∷ []) (number 4000000000 ∷ [])
            ≡ then_put ds (format false (b';' ∷ []) [])))
    × (4000000000 < 2 ^ 31
        → (ds : List ℕ) × IsDecimal 4000000000 ds
          × (format false (b'%' ∷ b'd' ∷ b';' ∷ []) (number 4000000000 ∷ [])
              ≡ then_put ds (format false (b';' ∷ []) [])))
    × (2 ^ 31 < 4000000000
        → (ds : List ℕ) × IsDecimal (2 ^ 32 - 4000000000) ds
          × (format false (b'%' ∷ b'd' ∷ b';' ∷ []) (number 4000000000 ∷ [])
              ≡ then_put (b'-' ∷ ds) (format false (b';' ∷ []) [])))
format-number_example = format-number 4000000000 (b';' ∷ []) [] (omega arith)
