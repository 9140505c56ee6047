-- ===== src/Containers/Dictionary/Lookup.antt =====
-- The binary searches of a dictionary: on sorted keys they find every key that is there.
use native.Mathlib.Decide.{dec_lt}
use baby_osv.Base.{
  ℕ, zero, suc, ◌+◌, ◌-◌, ◌/◌, ◌^◌, ◌≤◌, ◌<◌, ◌≡◌, ap, true, false, some, ltb, leb, ◌==◌, add32,
  sub32, arith,
}
use baby_osv.Base.Outcome.{ok}
use baby_osv.Containers.Array.{Array, at, is_empty, remove_at}
use baby_osv.Containers.Dictionary.{
  Tuple, find_loop, look, conclude, find_tuple, insert, or_insert, lookup, remove_key, remove_found,
}

module _ {ℓ} {V : Type ℓ} where
  abbrev pub key_at : Array (Tuple V) → ℕ → ℕ
  key_at keys i = (keys.elements i).key

  -- The keys go up.
  abbrev pub IsSorted : Array (Tuple V) → Type 0
  IsSorted keys = (i j : ℕ) → i < j → j < keys.size → key_at keys i < key_at keys j

  before :
      (keys : Array (Tuple V)) (k index : ℕ)
      → IsSorted keys
      → k < keys.size
      → index < keys.size
      → key_at keys k < key_at keys index
      → k < index
  before keys k index sorted hk hi less = elim (dec_lt k index) [
    | yes h ↦ h
    | no h ↦ elim (dec_lt index k) [
      | yes g ↦ absurd (omega (arith, less, sorted index k g hk))
      | no g ↦
          let same : k ≡ index = omega arith in absurd (omega (arith, less, ap (key_at keys) same))
    ]
  ]

  only :
      (keys : Array (Tuple V)) (k index : ℕ)
      → IsSorted keys
      → k < keys.size
      → index < keys.size
      → ¬ (key_at keys k < key_at keys index)
      → ¬ (key_at keys index < key_at keys k)
      → index ≡ k
  only keys k index sorted hk hi l m = elim (dec_lt k index) [
    | yes h ↦ absurd (l (sorted k index h hi))
    | no h ↦ elim (dec_lt index k) [ yes g ↦ absurd (m (sorted index k g hk)) | no g ↦ omega arith ]
  ]

  -- The loop comes to the key at `k`, if `k` is between `start` and `end`, the end included.
  find_loop_lem :
      (fuel : ℕ) (keys : Array (Tuple V)) (k start end : ℕ)
      → IsSorted keys
      → keys.size < 2 ^ 31
      → k < keys.size
      → start ≤ k
      → k ≤ end
      → end ≤ keys.size
      → end - start < fuel
      → conclude (look (key_at keys k) keys) (find_loop fuel (key_at keys k) keys start end)
        ≡ some (ok (some k))
  unfolding find_loop at
  find_loop_lem zero keys k start end sorted small hk low high top enough = absurd (omega arith)
  find_loop_lem (suc fuel) keys k start end sorted small hk low high top enough =
      elim (dec_lt start end) [
        | no h ↦ let same : start ≡ k = omega arith in ground (arith, ap (key_at keys) same)
        | yes h ↦
            let index = add32 start end / 2 in
            let middle : index ≡ (start + end) / 2 = omega arith in
            let inside : index < keys.size = omega arith in
            let key = key_at keys k in
            let goes : ltb start end ≡ true = ground (arith, h) in
            let reads : leb keys.size index ≡ false = ground (arith, inside) in
            elim (dec_lt key (key_at keys index)) [
              | yes less ↦
                  let left : ltb key (key_at keys index) ≡ true = ground (arith, less) in
                  let above = before keys k index sorted hk inside less in
                  let one_down : sub32 index 1 ≡ index - 1 = omega arith in
                  rw (find_loop, goes, at, reads, left, one_down)
                    (find_loop_lem fuel keys k start (index - 1) sorted small hk low (omega arith)
                      (omega arith) (omega arith))
              | no l ↦
                  let left : ltb key (key_at keys index) ≡ false = ground (arith, l) in
                  elim (dec_lt (key_at keys index) key) [
                    | yes more ↦
                        let right : ltb (key_at keys index) key ≡ true = ground (arith, more) in
                        let above = before keys index k sorted inside hk more in
                        let one_up : add32 index 1 ≡ index + 1 = omega arith in
                        rw (find_loop, goes, at, reads, left, right, one_up)
                          (find_loop_lem fuel keys k (index + 1) end sorted small hk (omega arith)
                            high top (omega arith))
                    | no m ↦
                        let right : ltb (key_at keys index) key ≡ false = ground (arith, m) in
                        rw (find_loop, goes, at, reads, left, right)
                          (ap (λ n. some (ok (some n))) (only keys k index sorted hk inside l m))
                  ]
            ]
      ]

  -- In a dictionary whose keys go up, with fewer than 2 ^ 31 of them, `FindTuple` finds the key at every
  -- index, `operator[]` gives the tuple there and changes nothing, and `RemoveKey` removes the tuple
  -- there; rounds one more than keys are enough.
  pub find_tuple-present :
      (fuel k : ℕ) (fresh : ℕ → Tuple V) (value : V) (keys : Array (Tuple V))
      → IsSorted keys
      → keys.size < 2 ^ 31
      → k < keys.size
      → keys.size < fuel
      → (find_tuple fuel (key_at keys k) keys ≡ some (ok (some k)))
        × (lookup fuel fresh value (key_at keys k) keys ≡ some (ok (keys, k)))
        × (remove_key fuel (key_at keys k) keys ≡ some (remove_at k keys))
  unfolding find_tuple is_empty lookup remove_key
  find_tuple-present fuel k fresh value keys sorted small hk enough =
      let some_keys : (keys.size == 0) ≡ false = ground (arith, hk) in
      let found : find_tuple fuel (key_at keys k) keys ≡ some (ok (some k)) = rw some_keys (
        find_loop_lem fuel keys k 0 keys.size sorted small hk (omega arith) (omega arith)
          (omega arith) (omega arith)) in
      (
        found,
        ap (or_insert (insert fuel fresh (key_at keys k) value keys) keys) found,
        ap (remove_found keys) found,
      )
