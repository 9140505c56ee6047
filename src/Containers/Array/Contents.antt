-- ===== src/Containers/Array/Contents.antt =====
-- The elements of an array as a list, and what shifting does to them.
use baby_osv.Base.{
  lt→ltb, ℕ, zero, suc, ◌+◌, ◌-◌, ◌≤◌, ◌<◌, ◌≡◌, refl, ap, ap₂, ◌∙◌, List, [], ◌∷◌, ltb, leb, ◌&&◌,
  if◌then◌else◌, arith, update,
}
use baby_osv.Base.{insert_at, remove_at}
use baby_osv.Base.Outcome.{ok}
use baby_osv.Containers.Array.{Array, shift_up, shift_down}

module _ {A : Type 0} where
  -- The `n` cells from `a` on.
  abbrev pub window : (ℕ → A) → ℕ → ℕ → List A
  window d a zero = []
  window d a (suc n) = d a ∷ window d (suc a) n

  abbrev pub contents : Array A → List A
  contents r = window r.elements 0 r.size

  pub window-ext :
      (d e : ℕ → A) (a b n : ℕ)
      → ((j : ℕ) → j < n → d (a + j) ≡ e (b + j))
      → window d a n ≡ window e b n
  window-ext d e a b zero h = refl
  window-ext d e a b (suc n) h =
      ap₂ ◌∷◌ (ap d (omega arith) ∙ h 0 (omega arith) ∙ ap e (omega arith)) (
        window-ext d e (suc a) (suc b) n
          (λ j l. ap d (omega arith) ∙ h (suc j) (omega arith) ∙ ap e (omega arith)))

  pub window-insert :
      (d e : ℕ → A) (x : A) (a i n : ℕ)
      → i ≤ n
      → ((j : ℕ) → j < i → e (a + j) ≡ d (a + j))
      → e (a + i) ≡ x
      → ((j : ℕ) → i ≤ j → j < n → e (suc (a + j)) ≡ d (a + j))
      → window e a (suc n) ≡ insert_at i x (window d a n)
  window-insert d e x a zero n le low here high =
      ap₂ ◌∷◌ (ap e (omega arith) ∙ here)
        (window-ext e d (suc a) a n (λ j l. ap e (omega arith) ∙ high j (omega arith) l))
  window-insert d e x a (suc i) zero le low here high = absurd (omega arith)
  window-insert d e x a (suc i) (suc n) le low here high =
      ap₂ ◌∷◌ (ap e (omega arith) ∙ low 0 (omega arith) ∙ ap d (omega arith)) (
        window-insert d e x (suc a) i n (omega arith)
          (λ j l. ap e (omega arith) ∙ low (suc j) (omega arith) ∙ ap d (omega arith))
          (ap e (omega arith) ∙ here)
          (λ j l m.
            ap e (omega arith) ∙ high (suc j) (omega arith) (omega arith) ∙ ap d (omega arith)))

  pub window-remove :
      (d e : ℕ → A) (a i n : ℕ)
      → i ≤ n
      → ((j : ℕ) → j < i → e (a + j) ≡ d (a + j))
      → ((j : ℕ) → i ≤ j → j < n → e (a + j) ≡ d (suc (a + j)))
      → window e a n ≡ remove_at i (window d a (suc n))
  window-remove d e a zero n le low high =
      window-ext e d a (suc a) n (λ j l. high j (omega arith) l ∙ ap d (omega arith))
  window-remove d e a (suc i) zero le low high = absurd (omega arith)
  window-remove d e a (suc i) (suc n) le low high =
      ap₂ ◌∷◌ (ap e (omega arith) ∙ low 0 (omega arith) ∙ ap d (omega arith)) (
        window-remove d e (suc a) i n (omega arith)
          (λ j l. ap e (omega arith) ∙ low (suc j) (omega arith) ∙ ap d (omega arith))
          (λ j l m.
            ap e (omega arith) ∙ high (suc j) (omega arith) (omega arith) ∙ ap d (omega arith)))

  pub shift_up_lem :
      (n a : ℕ) (d : ℕ → A) (j : ℕ)
      → n ≤ a
      → shift_up n a d j ≡ (if ltb (a - n) j && leb j a then d (j - 1) else d j)
  unfolding shift_up update
  shift_up_lem zero a d j le = ground arith
  shift_up_lem (suc n) a d j le =
      shift_up_lem n (a - 1) (update d a (d (a - 1))) j (omega arith) ∙ grind arith

  pub shift_down_lem :
      (capacity n a : ℕ) (d : ℕ → A)
      → a + n < capacity
      → (e : ℕ → A) × (shift_down capacity n a d ≡ ok e)
        × ((j : ℕ) → e j ≡ (if leb a j && ltb j (a + n) then d (j + 1) else d j))
  unfolding shift_down update
  shift_down_lem capacity zero a d le = (d, refl, λ j. ground arith)
  shift_down_lem capacity (suc n) a d le =
      let (e, done, cells) =
        shift_down_lem capacity n (a + 1) (update d a (d (a + 1))) (omega arith) in
      (e, rw (shift_down, lt→ltb (a + 1) capacity (omega arith)) done, λ j. cells j ∙ grind arith)
