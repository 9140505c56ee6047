-- ===== src/Libc/Strings.antt =====
-- Strings that `strcmp` finds to be the same.
use baby_osv.Base.{ℕ, ◌≡◌, refl, true, List, [], ◌∷◌, arith}
use baby_osv.Libc.{same_string}

pub same_string_refl : (s : List ℕ) → same_string s s ≡ true
same_string_refl [] = refl
same_string_refl (c ∷ s) = ground (arith, same_string_refl s)
