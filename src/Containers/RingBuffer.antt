-- ===== src/Containers/RingBuffer.antt =====
-- kernel/Containers/RingBuffer.hpp: a queue of at most `limit` objects in a circular array, which
-- drops its oldest object when a push finds it full.
pub mod Spec
pub mod Refine
pub mod Inv
pub mod Runs
mod Tests
use baby_osv.Base.{
  ℕ, ◌+◌, ◌-◌, ◌%◌, Bool, ◌&&◌, Option, none, some, ltb, ◌==◌, if◌then◌else◌, add32, sub32, update,
}

-- `RingBuffer<T, limit>`: the array `objs` as a function of the index.
pub record RingBuffer {ℓ} (A : Type ℓ) : Type ℓ where
  pub objs : ℕ → A
  pub size : ℕ
  pub read : ℕ
  pub write : ℕ
  pub dropped : ℕ

module _ {ℓ} {A : Type ℓ} where
  -- The constructor: the objects are whatever `T()` leaves there.
  unfoldable pub init : (ℕ → A) → RingBuffer A
  init objs = record { objs = objs; size = 0; read = 0; write = 0; dropped = 0 }

  unfoldable pub is_empty : RingBuffer A → Bool
  is_empty r = r.size == 0

  unfoldable pub get_dropped : RingBuffer A → ℕ
  get_dropped r = r.dropped

module _ {ℓ} (limit : ℕ) {A : Type ℓ} where
  unfoldable pub is_full : RingBuffer A → Bool
  is_full r = r.size == limit

  -- The first half of `PushBack`: make room, or count the object.
  unfoldable pub make_room : RingBuffer A → RingBuffer A
  make_room r =
      if (r.read == r.write) && ltb 0 r.size
      then record r { dropped = add32 r.dropped 1; read = add32 r.read 1 % limit }
      else record r { size = add32 r.size 1 }

  unfoldable pub push_back : RingBuffer A → A → RingBuffer A
  unfolding make_room
  push_back r arg =
      let s = make_room r in
      record s { objs = update s.objs s.write arg; write = add32 s.write 1 % limit }

  -- `none`: the assertion on `size` fails, and the kernel halts.
  unfoldable pub pop_front : RingBuffer A → Option (A × RingBuffer A)
  pop_front r =
      if ltb 0 r.size
      then some (r.objs r.read, record r { size = sub32 r.size 1; read = add32 r.read 1 % limit })
      else none
