-- ===== src/Containers/Dictionary/Single.antt =====
-- The searches of a dictionary of one tuple.
use baby_osv.Base.{ℕ, suc, ◌<◌, ◌≡◌, refl, ap, true, some, ltb, arith}
use baby_osv.Base.Outcome.{fault}
use baby_osv.Containers.Array.{Array, at, is_empty}
use baby_osv.Containers.Dictionary.{
  Tuple, find_loop, look, conclude, find_tuple, insert, or_insert, lookup, remove_key, remove_found,
}

module _ {ℓ} {V : Type ℓ} where
  -- An array of one tuple.
  abbrev pub single : (ℕ → Tuple V) → ℕ → Array (Tuple V)
  single tuples capacity = record { elements = tuples; size = 1; capacity = capacity }

  runs_out :
      (fuel key capacity : ℕ) (tuples : ℕ → Tuple V)
      → key < (tuples 0).key
      → find_loop (suc (suc fuel)) key (single tuples capacity) 0 1 ≡ some fault
  unfolding find_loop at
  runs_out fuel key capacity tuples less =
      let left : ltb key (tuples 0).key ≡ true = ground (arith, less) in
      rw (find_loop, at, left) refl

  -- In a dictionary of one tuple, `operator[]`, `FindTuple` and `RemoveKey` with a smaller key read
  -- behind the end of the array: the end of the search's range wraps around.
  pub below_single :
      (fuel key capacity : ℕ) (fresh tuples : ℕ → Tuple V) (value : V)
      → key < (tuples 0).key
      → (find_tuple (suc (suc fuel)) key (single tuples capacity) ≡ some fault)
        × (lookup (suc (suc fuel)) fresh value key (single tuples capacity) ≡ some fault)
        × (remove_key (suc (suc fuel)) key (single tuples capacity) ≡ some fault)
  unfolding find_tuple is_empty lookup remove_key
  below_single fuel key capacity fresh tuples value less =
      let keys = single tuples capacity in
      let faults : find_tuple (suc (suc fuel)) key keys ≡ some fault =
        ap (conclude (look key keys)) (runs_out fuel key capacity tuples less) in
      (
        faults,
        ap (or_insert (insert (suc (suc fuel)) fresh key value keys) keys) faults,
        ap (remove_found keys) faults,
      )
