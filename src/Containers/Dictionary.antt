-- ===== src/Containers/Dictionary.antt =====
-- kernel/Containers/Dictionary.hpp, with numbers as the keys. `fuel` bounds the rounds of the binary
-- searches.
pub mod Lookup
pub mod Absent
pub mod Single
mod Tests
use baby_osv.Base.{
  ℕ, zero, suc, ◌+◌, ◌-◌, ◌/◌, Bool, true, false, ◌&&◌, ◌||◌, Option, none, some, ltb, leb, ◌==◌,
  if◌then◌else◌, update, add32, sub32,
}
use baby_osv.Base.Outcome.{Outcome, ok, halted, fault, ◌>>=◌}
use baby_osv.Containers.Array.{Array, at, is_empty, insert_at, push_back, remove_at}

pub record Tuple {ℓ} (V : Type ℓ) : Type ℓ where
  pub key : ℕ
  pub value : V

-- How a search's loop ends: at the key, or with `is` as it was last.
pub data Search : Type 0 where
  hit : ℕ → Search
  ended : ℕ → Search

abbrev pub conclude {ℓ} : {B : Type ℓ} → (Search → B) → Option (Outcome Search) → Option (Outcome B)
conclude f none = none
conclude f (some (ok s)) = some (ok (f s))
conclude f (some halted) = some halted
conclude f (some fault) = some fault

module _ {ℓ} {V : Type ℓ} where
  -- The loop of `FindTuple`.
  unfoldable pub find_loop : ℕ → ℕ → Array (Tuple V) → ℕ → ℕ → Option (Outcome Search)
  unfolding at
  find_loop zero key keys start end = none
  find_loop (suc fuel) key keys start end = elim (ltb start end) [
    | false ↦ some (ok (ended start))
    | true ↦
        let index = add32 start end / 2 in
        elim (at keys index) [
          | ok t ↦ elim (ltb key t.key) [
            | true ↦ find_loop fuel key keys start (sub32 index 1)
            | false ↦ elim (ltb t.key key) [
              | true ↦ find_loop fuel key keys (add32 index 1) end
              | false ↦ some (ok (hit index))
            ]
          ]
          | halted ↦ some halted
          | fault ↦ some fault
        ]
  ]

  abbrev pub look : ℕ → Array (Tuple V) → Search → Option ℕ
  look key keys (hit index) = some index
  look key keys (ended start) =
      if ltb start keys.size && (key == (keys.elements start).key) then some start else none

  -- `FindTuple`; a pointer to a tuple is its index.
  unfoldable pub find_tuple : ℕ → ℕ → Array (Tuple V) → Option (Outcome (Option ℕ))
  unfolding find_loop is_empty
  find_tuple fuel key keys =
      if is_empty keys
      then some (ok none)
      else conclude (look key keys) (find_loop fuel key keys 0 keys.size)

  -- The loop of `Insert`, up to the write of the value.
  unfoldable pub insert_loop : ℕ → ℕ → Array (Tuple V) → ℕ → ℕ → Option (Outcome Search)
  unfolding at
  insert_loop zero key keys start end = none
  insert_loop (suc fuel) key keys start end = elim (ltb start end) [
    | false ↦ some (ok (ended start))
    | true ↦
        let index = add32 start end / 2 in
        elim (at keys index) [
          | ok t ↦ elim (ltb key t.key) [
            | true ↦ insert_loop fuel key keys start (sub32 index 1)
            | false ↦ elim (key == t.key) [
              | true ↦ some (ok (hit index))
              | false ↦ insert_loop fuel key keys (add32 index 1) end
            ]
          ]
          | halted ↦ some halted
          | fault ↦ some fault
        ]
  ]

  -- `keys[index].value = value`
  abbrev pub assign : V → Tuple V → Tuple V
  assign value t = record t { value = value }

  -- Where the new tuple goes.
  abbrev pub position : ℕ → Array (Tuple V) → ℕ → ℕ
  position key keys start =
      if leb keys.size start || ltb key (keys.elements start).key then start else add32 start 1

  abbrev pub enter : (ℕ → Tuple V) → ℕ → V → Array (Tuple V) → Search → Array (Tuple V) × ℕ
  enter fresh key value keys (hit index) = (
    record keys { elements = update keys.elements index (assign value (keys.elements index)) },
    index,
  )
  enter fresh key value keys (ended start) =
      let index = position key keys start in
      (insert_at fresh index (record { key = key; value = value }) keys, index)

  -- `Insert`, where new memory holds `fresh`.
  unfoldable pub insert :
      ℕ → (ℕ → Tuple V) → ℕ → V → Array (Tuple V) → Option (Outcome (Array (Tuple V) × ℕ))
  unfolding insert_loop is_empty insert_at push_back
  insert fuel fresh key value keys =
      if is_empty keys
      then some (
          ok (
            push_back fresh (record { key = key; value = value }) keys,
            sub32 (add32 keys.size 1) 1,
          ))
      else conclude (enter fresh key value keys) (insert_loop fuel key keys 0 keys.size)

  abbrev pub or_insert :
      Option (Outcome (Array (Tuple V) × ℕ))
      → Array (Tuple V)
      → Option (Outcome (Option ℕ))
      → Option (Outcome (Array (Tuple V) × ℕ))
  or_insert new keys none = none
  or_insert new keys (some halted) = some halted
  or_insert new keys (some fault) = some fault
  or_insert new keys (some (ok none)) = new
  or_insert new keys (some (ok (some index))) = some (ok (keys, index))

  -- `operator[]`, where `value` is `V()`.
  unfoldable pub lookup :
      ℕ → (ℕ → Tuple V) → V → ℕ → Array (Tuple V) → Option (Outcome (Array (Tuple V) × ℕ))
  unfolding find_tuple insert
  lookup fuel fresh value key keys =
      or_insert (insert fuel fresh key value keys) keys (find_tuple fuel key keys)

  abbrev pub remove_found :
      Array (Tuple V) → Option (Outcome (Option ℕ)) → Option (Outcome (Array (Tuple V)))
  remove_found keys none = none
  remove_found keys (some halted) = some halted
  remove_found keys (some fault) = some fault
  remove_found keys (some (ok none)) = some (ok keys)
  remove_found keys (some (ok (some index))) = some (remove_at index keys)

  -- `RemoveKey`
  unfoldable pub remove_key : ℕ → ℕ → Array (Tuple V) → Option (Outcome (Array (Tuple V)))
  unfolding find_tuple remove_at
  remove_key fuel key keys = remove_found keys (find_tuple fuel key keys)
