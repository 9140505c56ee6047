-- ===== src/Fat/Name/Short.antt =====
-- `LFNToF83` on a name with an extension.
use baby_osv.Base.{
  ℕ, zero, suc, ◌+◌, ◌-◌, ◌<◌, ◌≡◌, refl, ap, ap₂, ◌∙◌, Bool, false, ◌||◌, List, [], ◌∷◌, ◌++◌, ltb,
  leb, ◌==◌, if◌then◌else◌, arith, length, length-append, get_or, u32_mod,
}
use baby_osv.Libc.{toupper}
use baby_osv.Fat.Name.{
  space, dot, not_found, find_last_from, str_find_last_of, dot_pos, f83_char, f83_from, lfn_to_f83,
}

abbrev pub has : ℕ → List ℕ → Bool
has c [] = false
has c (x ∷ xs) = (x == c) || has c xs

find_last_none : (xs : List ℕ) (c a pos : ℕ) → has c xs ≡ false → find_last_from xs c a pos ≡ pos
unfolding find_last_from
find_last_none [] c a pos h = refl
find_last_none (x ∷ xs) c a pos h = find_last_none xs c (a + 1) _ (ground arith) ∙ ground arith

find_last_mid :
    (xs ys : List ℕ) (c a pos : ℕ)
    → has c ys ≡ false
    → find_last_from (xs ++ (c ∷ ys)) c a pos ≡ a + length xs
unfolding find_last_from
find_last_mid [] ys c a pos h = find_last_none ys c (a + 1) _ h ∙ ground arith
find_last_mid (x ∷ xs) ys c a pos h = find_last_mid xs ys c (a + 1) _ h ∙ omega arith

dot_pos_lem :
    (base ext : List ℕ)
    → has dot ext ≡ false
    → 0 < length ext
    → length base + length ext + 2 < u32_mod
    → dot_pos (base ++ (dot ∷ ext)) ≡ length base
unfolding dot_pos str_find_last_of
dot_pos_lem base ext plain some_ext fits =
    ground (arith, find_last_mid base ext dot 0 not_found plain, length-append base (dot ∷ ext))

get_or-front : (xs ys : List ℕ) (i : ℕ) → i < length xs → get_or (xs ++ ys) i 0 ≡ get_or xs i 0
get_or-front [] ys i h = absurd (omega arith)
get_or-front (x ∷ xs) ys zero h = refl
get_or-front (x ∷ xs) ys (suc i) h = get_or-front xs ys i (omega arith)

get_or-behind :
    (xs ys : List ℕ) (c i : ℕ) → get_or (xs ++ (c ∷ ys)) (suc (length xs + i)) 0 ≡ get_or ys i 0
get_or-behind [] ys c i = ap (λ j. get_or ys j 0) (omega arith)
get_or-behind (x ∷ xs) ys c i =
    ap (λ j. get_or (xs ++ (c ∷ ys)) j 0) {y = suc (length xs + i)} (omega arith)
    ∙ get_or-behind xs ys c i

taken_off : (i : ℕ) → 8 + i - 8 ≡ i
taken_off i = omega arith

next_index : (m n : ℕ) → m + n + 1 ≡ suc (m + n)
next_index m n = omega arith

-- What the code writes at a position.
abbrev pub written : List ℕ → List ℕ → ℕ → ℕ
written base ext a =
    if ltb a 8
    then if ltb a (length base) then toupper (get_or base a 0) else space
    else if leb (a - 8) (length ext)
    then toupper (get_or ext (a - 8) 0)
    else space

f83_char_lem :
    (base ext : List ℕ) (a : ℕ)
    → f83_char (base ++ (dot ∷ ext)) (length base) a ≡ written base ext a
unfolding f83_char
f83_char_lem base ext a = ground (
  arith,
  length-append base (dot ∷ ext),
  get_or-front base (dot ∷ ext) a,
  get_or-behind base ext dot (a - 8),
  ap (λ j. get_or (base ++ (dot ∷ ext)) j 0) (next_index (length base) (a - 8)),
)

-- A field of an 8.3 name: the characters in upper case, cut or filled up with spaces to `n`.
abbrev pub field : ℕ → List ℕ → List ℕ
field zero xs = []
field (suc n) [] = space ∷ field n []
field (suc n) (x ∷ xs) = toupper x ∷ field n xs

abbrev pub cell : List ℕ → ℕ → ℕ
cell xs i = if ltb i (length xs) then toupper (get_or xs i 0) else space

from-field :
    (lfn : List ℕ) (pos n a : ℕ) (xs : List ℕ)
    → ((i : ℕ) → i < n → f83_char lfn pos (a + i) ≡ cell xs i)
    → f83_from lfn pos n a ≡ field n xs
unfolding f83_from
from-field lfn pos zero a xs h = refl
from-field lfn pos (suc n) a [] h =
    ap₂ ◌∷◌ (ap (f83_char lfn pos) (omega arith) ∙ h 0 (omega arith)) (
      from-field lfn pos n (a + 1) []
        (λ i l. ap (f83_char lfn pos) (omega arith) ∙ h (suc i) (omega arith) ∙ ground arith))
from-field lfn pos (suc n) a (x ∷ xs) h =
    ap₂ ◌∷◌ (ap (f83_char lfn pos) (omega arith) ∙ h 0 (omega arith) ∙ ground arith) (
      from-field lfn pos n (a + 1) xs
        (λ i l. ap (f83_char lfn pos) (omega arith) ∙ h (suc i) (omega arith) ∙ ground arith))

two_fields :
    (lfn : List ℕ) (pos : ℕ) → f83_from lfn pos 11 0 ≡ f83_from lfn pos 8 0 ++ f83_from lfn pos 3 8
unfolding f83_from
two_fields lfn pos = refl

get_or-last : (xs : List ℕ) (i : ℕ) → get_or (xs ++ (0 ∷ [])) i 0 ≡ get_or xs i 0
get_or-last [] zero = refl
get_or-last [] (suc i) = refl
get_or-last (x ∷ xs) zero = refl
get_or-last (x ∷ xs) (suc i) = get_or-last xs i

-- For a base and an extension that is not empty and has no dot, `LFNToF83` writes the base in upper case,
-- cut or filled up with spaces to eight characters, and then the extension followed by a 0, cut or filled
-- up to three: so an extension of one or two characters is followed by a 0 instead of a space.
pub lfn_to_f83_lem :
    (base ext : List ℕ)
    → has dot ext ≡ false
    → 0 < length ext
    → length base + length ext + 2 < u32_mod
    → lfn_to_f83 (base ++ (dot ∷ ext)) ≡ field 8 base ++ field 3 (ext ++ (0 ∷ []))
unfolding lfn_to_f83
lfn_to_f83_lem base ext plain some_ext fits =
    ap (λ pos. f83_from (base ++ (dot ∷ ext)) pos 11 0) (dot_pos_lem base ext plain some_ext fits)
    ∙ two_fields (base ++ (dot ∷ ext)) (length base)
    ∙ ap₂ ◌++◌
        (from-field (base ++ (dot ∷ ext)) (length base) 8 0 base
          (λ i l. f83_char_lem base ext (0 + i) ∙ ground arith))
        (from-field (base ++ (dot ∷ ext)) (length base) 3 8 (ext ++ (0 ∷ [])) (λ i l.
          f83_char_lem base ext (8 + i)
          ∙ ground (
            arith,
            get_or-last ext i,
            length-append ext (0 ∷ []),
            ap (λ j. get_or ext j 0) (taken_off i),
          )))
