-- ===== src/Containers/RingBuffer/Inv.antt =====
-- The invariant of RingBuffer.hpp under its operations.
use native.Mathlib.Decide.{ℕ_discrete}
use baby_osv.Base.{
  ℕ, suc, ◌+◌, ◌-◌, ◌%◌, ◌<◌, ◌≡◌, ap, ap₂, ◌∙◌, sym, some, none, ◌∷◌, arith, mod_shift, mod_small,
  add32, sub32, lt→ltb,
}
use baby_osv.Containers.RingBuffer.{RingBuffer, push_back, pop_front}
use baby_osv.Containers.RingBuffer.Refine.{
  IsValid, contents, cells, cells_next, room_full, room_free,
}

module _ {ℓ} (limit : ℕ) {A : Type ℓ} where
  -- `PushBack` keeps the invariant.
  pub push_back-IsValid :
      {r : RingBuffer A} (x : A) → IsValid limit r → IsValid limit (push_back limit r x)
  unfolding push_back
  push_back-IsValid {r} x v = elim (ℕ_discrete r.size limit) [
    | yes e ↦ rw (room_full limit v e) (record {
      positive = v.positive;
      word = v.word;
      read_in = next_in r.read;
      size_in = v.size_in;
      write_at = at_full e;
    })
    | no ne ↦ rw (room_free limit v ne) (record {
      positive = v.positive;
      word = v.word;
      read_in = v.read_in;
      size_in = omega (arith, v.size_in);
      write_at = at_free;
    })
  ]
    where
      write_in : r.write < limit
      write_in = omega (arith, v.write_at, v.positive)

      next_in : (a : ℕ) → (a + 1) % limit < limit
      next_in a = omega (arith, v.positive)

      no_wrap : add32 r.write 1 ≡ r.write + 1
      no_wrap = omega (arith, write_in, v.word)

      at_full : r.size ≡ limit → add32 r.write 1 % limit ≡ ((r.read + 1) % limit + r.size) % limit
      at_full e =
          ap (λ (a : ℕ). a % limit) no_wrap
          ∙ ap (λ (a : ℕ). (a + 1) % limit) v.write_at
          ∙ mod_shift (r.read + r.size) 1 limit
          ∙ ap (λ (a : ℕ). a % limit) {y = r.read + 1 + r.size} (omega arith)
          ∙ sym (mod_shift (r.read + 1) r.size limit)

      at_free : add32 r.write 1 % limit ≡ (r.read + (r.size + 1)) % limit
      at_free =
          ap (λ (a : ℕ). a % limit) no_wrap
          ∙ ap (λ (a : ℕ). (a + 1) % limit) v.write_at
          ∙ mod_shift (r.read + r.size) 1 limit
          ∙ ap (λ (a : ℕ). a % limit) (omega arith)

  -- The ring buffer that `PopFront` leaves.
  abbrev pub popped : RingBuffer A → RingBuffer A
  popped r = record r { size = sub32 r.size 1; read = add32 r.read 1 % limit }

  pub pop_front-some :
      (r : RingBuffer A) → 0 < r.size → pop_front limit r ≡ some (r.objs r.read, popped r)
  unfolding pop_front
  pop_front-some r p = rw (lt→ltb 0 r.size p)

  pub pop_front-none : (r : RingBuffer A) → r.size ≡ 0 → pop_front limit r ≡ none
  unfolding pop_front
  pop_front-none r e = rw e

  module _ {r : RingBuffer A} (v : IsValid limit r) (p : 0 < r.size) where
    size_less : sub32 r.size 1 ≡ r.size - 1
    size_less = omega (arith, v.size_in, v.word)

    read_more : add32 r.read 1 ≡ r.read + 1
    read_more = omega (arith, v.read_in, v.word)

    pub popped-IsValid : IsValid limit (popped r)
    popped-IsValid = record {
      positive = v.positive;
      word = v.word;
      read_in = omega (arith, v.positive);
      size_in = omega (arith, size_less, v.size_in);
      write_at =
          rw (size_less, read_more)
            (v.write_at
              ∙ ap (λ (a : ℕ). a % limit) (omega arith)
              ∙ sym (mod_shift (r.read + 1) (r.size - 1) limit));
    }

    pub contents-popped :
        contents limit r
        ≡ record { items = r.objs r.read ∷ (contents limit (popped r)).items; lost = r.dropped }
    contents-popped =
        rw (size_less, read_more)
          (λ i. record {
            items =
                (ap (cells limit r.objs r.read 0) {x = r.size} {y = suc (r.size - 1)} (omega arith)
                    ∙ ap₂ ◌∷◌
                        (ap r.objs (
                          ap (λ (a : ℕ). a % limit) {x = r.read + 0} (omega arith)
                          ∙ mod_small r.read limit v.read_in))
                        (sym (cells_next limit r.objs r.read 0 (r.size - 1))))
                  i;
            lost = r.dropped;
          })
