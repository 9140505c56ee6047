-- ===== src/Containers/RingBuffer/Refine.antt =====
-- The ring buffer of RingBuffer.hpp behaves as a bounded queue that drops its oldest object.
use native.Mathlib.Decide.{dec_lt, ℕ_discrete}
use baby_osv.Base.{
  ℕ, zero, suc, ◌+◌, ◌-◌, ◌%◌, ◌≤◌, ◌<◌, ◌≡◌, refl, ap, ap₂, true, false, ltb, ◌==◌, ◌&&◌, ◌∙◌, sym,
  ◌≢◌, List, [], ◌∷◌, ◌++◌, arith, length, update, update_self, update_ne, mod_shift, mod_apart,
  mod_small, mod_once, u32_mod, add32,
}
use baby_osv.Containers.RingBuffer.{RingBuffer, init, make_room, push_back}
use baby_osv.Containers.RingBuffer.Spec
use baby_osv.Containers.RingBuffer.Spec.{Queue}

next_position : (limit h m : ℕ) → h < limit → limit ≡ suc m → h ≡ ((h + 1) % limit + m) % limit
next_position limit h m hh e = sym (
    mod_shift (h + 1) m limit
    ∙ mod_once (h + 1 + m) limit (omega arith) (omega arith)
    ∙ omega arith)

module _ {ℓ} (limit : ℕ) {A : Type ℓ} where
  -- The cells at the positions `k` to `k + n` after `h`, going round at `limit`.
  abbrev pub cells : (ℕ → A) → ℕ → ℕ → ℕ → List A
  cells f h k zero = []
  cells f h k (suc n) = f ((h + k) % limit) ∷ cells f h (suc k) n

  pub length-cells : (f : ℕ → A) (h k n : ℕ) → length (cells f h k n) ≡ n
  length-cells f h k zero = refl
  length-cells f h k (suc n) = ap suc (length-cells f h (suc k) n)

  -- Starting one later is going on from the next position.
  pub cells_next : (f : ℕ → A) (h k n : ℕ) → cells f ((h + 1) % limit) k n ≡ cells f h (suc k) n
  cells_next f h k zero = refl
  cells_next f h k (suc n) =
      ap₂ ◌∷◌ (ap f (mod_shift (h + 1) k limit ∙ ap (λ (a : ℕ). a % limit) (omega arith)))
        (cells_next f h (suc k) n)

  cells_last :
      (f : ℕ → A) (h k n i : ℕ)
      → i ≡ (h + (k + n)) % limit
      → cells f h k (suc n) ≡ cells f h k n ++ (f i ∷ [])
  cells_last f h k zero i e =
      ap (λ a. f a ∷ []) (ap (λ (a : ℕ). (h + a) % limit) (omega arith) ∙ sym e)
  cells_last f h k (suc n) i e =
      ap (λ l. f ((h + k) % limit) ∷ l)
        (cells_last f h (suc k) n i (e ∙ ap (λ (a : ℕ). (h + a) % limit) (omega arith)))

  -- A write beyond the cells does not change them.
  cells-update :
      (f : ℕ → A) (v : A) (h k n j : ℕ)
      → h < limit
      → k + n ≤ j
      → j < limit
      → cells (update f ((h + j) % limit) v) h k n ≡ cells f h k n
  cells-update f v h k zero j hh kn jl = refl
  cells-update f v h k (suc n) j hh kn jl =
      ap₂ ◌∷◌
        (update_ne f ((h + j) % limit) ((h + k) % limit) v
          (λ e. mod_apart h k j limit hh (omega arith) jl (sym e)))
        (cells-update f v h (suc k) n j hh (omega arith) jl)

  -- The invariant of the class.
  pub record IsValid (r : RingBuffer A) : Type 0 where
    pub positive : 0 < limit
    pub word : limit < u32_mod
    pub read_in : r.read < limit
    pub size_in : r.size ≤ limit
    pub write_at : r.write ≡ (r.read + r.size) % limit

  abbrev pub contents : RingBuffer A → Queue A
  contents r = record { items = cells r.objs r.read 0 r.size; lost = r.dropped }

  pub init-IsValid : (objs : ℕ → A) → 0 < limit → limit < u32_mod → IsValid (init objs)
  unfolding init
  init-IsValid objs p w = record {
    positive = p;
    word = w;
    read_in = p;
    size_in = omega arith;
    write_at = sym (mod_small 0 limit p);
  }

  -- A write over the oldest object of a full buffer.
  cells_overwrite :
      (f : ℕ → A) (v : A) (h m i : ℕ)
      → h < limit
      → limit ≡ suc m
      → i ≡ h
      → cells (update f i v) ((h + 1) % limit) 0 (suc m) ≡ cells f h 1 m ++ (v ∷ [])
  cells_overwrite f v h m i hh e ih =
      let at : i ≡ ((h + 1) % limit + (0 + m)) % limit =
        ih
        ∙ next_position limit h m hh e
        ∙ ap (λ (a : ℕ). ((h + 1) % limit + a) % limit) (omega arith) in
      cells_last (update f i v) ((h + 1) % limit) 0 m i at
      ∙ ap₂ (λ l x. l ++ (x ∷ []))
          (ap (λ (a : ℕ). cells (update f a v) ((h + 1) % limit) 0 m)
              (ih ∙ next_position limit h m hh e)
            ∙ cells-update f v ((h + 1) % limit) 0 m m (mod-lt_of_lt h) (omega arith) (omega arith)
            ∙ cells_next f h 0 m)
          (update_self f i v)
    where
      mod-lt_of_lt : (a : ℕ) → (a + 1) % limit < limit
      mod-lt_of_lt a = omega arith

  cells_append :
      (f : ℕ → A) (v : A) (h n i : ℕ)
      → h < limit
      → n < limit
      → i ≡ (h + n) % limit
      → cells (update f i v) h 0 (suc n) ≡ cells f h 0 n ++ (v ∷ [])
  cells_append f v h n i hh hn e =
      cells_last (update f i v) h 0 n i (e ∙ ap (λ (a : ℕ). (h + a) % limit) (omega arith))
      ∙ ap₂ (λ l x. l ++ (x ∷ []))
          (ap (λ (a : ℕ). cells (update f a v) h 0 n) e
            ∙ cells-update f v h 0 n n hh (omega arith) hn)
          (update_self f i v)

  -- The test of `PushBack` for a full buffer is exact.
  full_of_test : {r : RingBuffer A} → IsValid r → r.read ≡ r.write → 0 < r.size → r.size ≡ limit
  full_of_test {r} v e p = elim (dec_lt r.size limit) [
    | yes q ↦ absurd (
        mod_apart r.read 0 r.size limit v.read_in p q (
          ap (λ (a : ℕ). a % limit) (omega arith)
          ∙ mod_small r.read limit v.read_in
          ∙ e
          ∙ v.write_at))
    | no q ↦ omega (arith, v.size_in)
  ]

  test_of_full : {r : RingBuffer A} → IsValid r → r.size ≡ limit → r.read ≡ r.write
  test_of_full {r} v e = sym (
      v.write_at
      ∙ mod_once (r.read + r.size) limit (omega (arith, v.positive)) (omega (arith, v.read_in))
      ∙ omega arith)

  pub room_full :
      {r : RingBuffer A}
      → IsValid r
      → r.size ≡ limit
      → make_room limit r ≡ record r { dropped = add32 r.dropped 1; read = (r.read + 1) % limit }
  unfolding make_room
  room_full {r} v e =
      ground
        (arith, test_of_full v e, v.positive, v.word, v.read_in, mod_small (r.read + 1) u32_mod)

  pub room_free :
      {r : RingBuffer A}
      → IsValid r
      → r.size ≢ limit
      → make_room limit r ≡ record r { size = r.size + 1 }
  unfolding make_room
  room_free {r} v ne = rw (test, mod_small (r.size + 1) u32_mod (omega (arith, v.size_in, v.word)))
    where
      test : ((r.read == r.write) && ltb 0 r.size) ≡ false
      test = ground (arith, full_of_test v)

  items_full :
      {r : RingBuffer A} (m : ℕ) (x : A)
      → IsValid r
      → limit ≡ suc m
      → r.size ≡ limit
      → cells (update r.objs r.write x) ((r.read + 1) % limit) 0 r.size
        ≡ Spec.behind_first (cells r.objs r.read 0 r.size) ++ (x ∷ [])
  items_full {r} m x v e f =
      ap (cells (update r.objs r.write x) ((r.read + 1) % limit) 0) (f ∙ e)
      ∙ cells_overwrite r.objs x r.read m r.write v.read_in e (sym (test_of_full v f))
      ∙ ap (λ n. Spec.behind_first (cells r.objs r.read 0 n) ++ (x ∷ [])) (sym (f ∙ e))

  -- `PushBack` is `Spec.push`.
  pub push_back_refines :
      {r : RingBuffer A} (x : A)
      → IsValid r
      → contents (push_back limit r x) ≡ Spec.push limit (contents r) x
  unfolding push_back Spec.push
  push_back_refines {r} x v = elim (ℕ_discrete r.size limit) [
    | yes e ↦
        rw (room_full v e, length-cells r.objs r.read 0 r.size, test_true e)
          (λ i. record {
            items = items_full (limit - 1) x v (omega (arith, v.positive)) e i;
            lost = add32 r.dropped 1;
          })
    | no ne ↦
        rw (room_free v ne, length-cells r.objs r.read 0 r.size, test_false ne)
          (λ i. record { items = appended ne i; lost = r.dropped })
  ]
    where
      test_true : r.size ≡ limit → (r.size == limit) ≡ true
      test_true e = ground arith

      test_false : r.size ≢ limit → (r.size == limit) ≡ false
      test_false ne = ground arith

      appended :
          r.size ≢ limit
          → cells (update r.objs r.write x) r.read 0 (r.size + 1)
            ≡ cells r.objs r.read 0 r.size ++ (x ∷ [])
      appended ne =
          ap (cells (update r.objs r.write x) r.read 0) {y = suc r.size} (omega arith)
          ∙ cells_append r.objs x r.read r.size r.write v.read_in (omega (arith, v.size_in))
              v.write_at
