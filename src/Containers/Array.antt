-- ===== src/Containers/Array.antt =====
-- kernel/Containers/Array.hpp. `elements` is the buffer `data` as a function of the index; a destructor of an
-- element accesses nothing, as for the elements that the kernel stores.
pub mod Contents
pub mod Insert
pub mod Remove
mod Tests
use baby_osv.Base.{
  ℕ, zero, suc, ◌+◌, ◌-◌, Bool, true, false, not, ◌&&◌, ltb, leb, ◌==◌, if◌then◌else◌, update,
  add32, sub32, mul32,
}
use baby_osv.Base.Outcome.{Outcome, ok, halted, fault, ◌>>=◌}

pub record Array {ℓ} (A : Type ℓ) : Type ℓ where
  pub elements : ℕ → A
  pub size : ℕ
  pub capacity : ℕ

module _ {ℓ} {A : Type ℓ} where
  -- The default constructor: there is no buffer, so what it holds is arbitrary.
  unfoldable pub init : (ℕ → A) → Array A
  init objs = record { elements = objs; size = 0; capacity = 0 }

  unfoldable pub is_empty : Array A → Bool
  is_empty r = r.size == 0

  -- `operator[]`; past the end it gives a reference to nothing.
  unfoldable pub at : Array A → ℕ → Outcome A
  at r index = if leb r.size index then fault else ok (r.elements index)

  -- The `memcpy` of `Resize`: the old cells, and whatever is in the new memory behind them.
  abbrev pub moved : Array A → (ℕ → A) → ℕ → A
  moved r fresh i = if ltb i r.capacity then r.elements i else fresh i

  -- `Resize` where `new` gives memory that holds `fresh`.
  unfoldable pub resize : (ℕ → A) → Array A → Array A
  resize fresh r = record r {
    elements = moved r fresh;
    capacity = if ltb 0 r.capacity then mul32 r.capacity 2 else 8;
  }

  -- The loop of `InsertAt` for `n` rounds, from `a` down.
  unfoldable pub shift_up : ℕ → ℕ → (ℕ → A) → ℕ → A
  shift_up zero a d = d
  shift_up (suc n) a d = shift_up n (a - 1) (update d a (d (a - 1)))

  abbrev pub place : ℕ → A → Array A → Array A
  place index arg r = record r {
    elements = update (shift_up (r.size - index) r.size r.elements) index arg;
    size = add32 r.size 1;
  }

  unfoldable pub insert_at : (ℕ → A) → ℕ → A → Array A → Array A
  unfolding resize shift_up
  insert_at fresh index arg r =
      let index = if ltb r.size index then r.size else index in
      place index arg (if ltb r.capacity (add32 r.size 1) then resize fresh r else r)

  -- The loop of `RemoveAt` for `n` rounds, from `a` up.
  unfoldable pub shift_down : ℕ → ℕ → ℕ → (ℕ → A) → Outcome (ℕ → A)
  shift_down capacity zero a d = ok d
  shift_down capacity (suc n) a d = elim (ltb (a + 1) capacity) [
    | true ↦ shift_down capacity n (a + 1) (update d a (d (a + 1)))
    | false ↦ fault
  ]

  unfoldable pub remove_at : ℕ → Array A → Outcome (Array A)
  unfolding shift_down
  remove_at index r = elim (ltb r.size index) [
    | true ↦ ok r
    | false ↦ do
      moved_down ← shift_down r.capacity (sub32 r.size 1 - index) index r.elements
      ok (record r { elements = moved_down; size = sub32 r.size 1 })
  ]

  unfoldable pub push_front : (ℕ → A) → A → Array A → Array A
  unfolding insert_at
  push_front fresh arg r = insert_at fresh 0 arg r

  unfoldable pub push_back : (ℕ → A) → A → Array A → Array A
  unfolding insert_at
  push_back fresh arg r = insert_at fresh r.size arg r

  unfoldable pub pop_front : Array A → Outcome (A × Array A)
  unfolding remove_at
  pop_front r = elim (ltb 0 r.capacity) [
    | true ↦ do s ← remove_at 0 r; ok (r.elements 0, s)
    | false ↦ fault
  ]

  unfoldable pub pop_back : Array A → Outcome (A × Array A)
  unfolding remove_at
  pop_back r = elim (ltb (sub32 r.size 1) r.capacity) [
    | true ↦ do s ← remove_at (sub32 r.size 1) r; ok (r.elements (sub32 r.size 1), s)
    | false ↦ fault
  ]

  unfoldable pub clear : Array A → Array A
  clear r = record r { size = 0 }

module _ {ℓ} {A : Type ℓ} (equal : A → A → Bool) where
  -- The loop of `Remove` from `a` on; a round removes an element or goes on, so `size - a` rounds are
  -- enough.
  unfoldable pub remove_from : ℕ → ℕ → A → Array A → Outcome (Array A)
  unfolding remove_at
  remove_from zero a arg r = ok r
  remove_from (suc fuel) a arg r = elim (ltb a r.size && equal (r.elements a) arg) [
    | true ↦ remove_at a r >>= remove_from fuel a arg
    | false ↦ remove_from fuel (a + 1) arg r
  ]

  unfoldable pub remove : A → Array A → Outcome (Array A)
  unfolding remove_from
  remove arg r = remove_from r.size 0 arg r
