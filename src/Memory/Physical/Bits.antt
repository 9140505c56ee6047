-- ===== src/Memory/Physical/Bits.antt =====
-- Reading the bitmap: which pages are free, and what writes change.
use native.Mathlib.Decide.{dec_lt}
use baby_osv.Base.{
  ℕ, zero, suc, ◌+◌, ◌≤◌, ◌<◌, ◌≡◌, refl, ap, ◌∙◌, ◌⊎◌, inl, Bool, true, false, List, [], ◌∷◌,
  arith, length, set, length-set, ltb, ◌==◌, ◌&&◌, if◌then◌else◌,
}
use baby_osv.Memory.Physical.{clear_range}

-- Whether the page at an index is free; there are no pages beyond the bitmap.
abbrev pub is_free : List Bool → ℕ → Bool
is_free [] i = false
is_free (b ∷ bs) zero = b
is_free (b ∷ bs) (suc i) = is_free bs i

pub is_free_lt : (bits : List Bool) (i : ℕ) → is_free bits i ≡ true → i < length bits
is_free_lt [] i h = absurd (cc)
is_free_lt (b ∷ bs) zero h = omega arith
is_free_lt (b ∷ bs) (suc i) h = omega (arith, is_free_lt bs i h)

pub is_free-set :
    (bits : List Bool) (i j : ℕ) (v : Bool)
    → is_free (set bits i v) j ≡ (if (i == j) && ltb i (length bits) then v else is_free bits j)
is_free-set [] i j v = ground arith
is_free-set (b ∷ bs) zero zero v = ground arith
is_free-set (b ∷ bs) zero (suc j) v = ground arith
is_free-set (b ∷ bs) (suc i) zero v = ground arith
is_free-set (b ∷ bs) (suc i) (suc j) v = ground (arith, is_free-set bs i j v)

pub length-clear_range : (n c : ℕ) (bits : List Bool) → length (clear_range n c bits) ≡ length bits
unfolding clear_range
length-clear_range zero c bits = refl
length-clear_range (suc n) c bits =
    length-clear_range n (c + 1) (set bits c false) ∙ length-set bits c false

pub is_free-set-false : (bits : List Bool) (i : ℕ) → is_free (set bits i false) i ≡ false
is_free-set-false [] i = refl
is_free-set-false (b ∷ bs) zero = refl
is_free-set-false (b ∷ bs) (suc i) = is_free-set-false bs i

pub clear_range_out :
    (n c : ℕ) (bits : List Bool) (j : ℕ)
    → (j < c) ⊎ (c + n ≤ j)
    → is_free (clear_range n c bits) j ≡ is_free bits j
unfolding clear_range
clear_range_out zero c bits j out = refl
clear_range_out (suc n) c bits j out =
    ground (arith, clear_range_out n (c + 1) (set bits c false) j, is_free-set bits c j false)

-- Exactly the pages of the range become reserved.
pub clear_range_in :
    (n c : ℕ) (bits : List Bool) (j : ℕ)
    → c ≤ j
    → j < c + n
    → is_free (clear_range n c bits) j ≡ false
unfolding clear_range
clear_range_in zero c bits j lo hi = absurd (omega arith)
clear_range_in (suc n) c bits j lo hi = elim (dec_lt c j) [
  | yes p ↦ clear_range_in n (c + 1) (set bits c false) j (omega arith) (omega arith)
  | no p ↦
      clear_range_out n (c + 1) (set bits c false) j (inl (omega arith))
      ∙ ap (is_free (set bits c false)) (omega arith)
      ∙ is_free-set-false bits c
]
