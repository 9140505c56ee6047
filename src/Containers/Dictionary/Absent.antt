-- ===== src/Containers/Dictionary/Absent.antt =====
-- The searches of a dictionary for a key that is not there.
use native.Mathlib.Decide.{dec_lt}
use baby_osv.Base.{
  ℕ, zero, suc, ◌+◌, ◌-◌, ◌/◌, ◌^◌, ◌≤◌, ◌<◌, ◌≡◌, refl, ap, ◌∙◌, ◌≢◌, true, false, Option, none,
  some, ltb, leb, ◌==◌, add32, sub32, arith,
}
use baby_osv.Base.Outcome.{Outcome, ok}
use baby_osv.Containers.Array.{Array, at, is_empty, insert_at}
use baby_osv.Containers.Dictionary.{
  Tuple, Search, ended, find_loop, look, find_tuple, insert_loop, insert, or_insert, lookup,
  position,
}
use baby_osv.Containers.Dictionary.Lookup.{key_at, IsSorted}

module _ {ℓ} {V : Type ℓ} where
  -- No tuple has the key.
  abbrev pub IsAbsent : ℕ → Array (Tuple V) → Type 0
  IsAbsent key keys = (i : ℕ) → i < keys.size → key_at keys i ≢ key

  -- The index at which the key belongs.
  pub record Between (key : ℕ) (keys : Array (Tuple V)) (p : ℕ) : Type 0 where
    pub inside : p ≤ keys.size
    pub less : (i : ℕ) → i < p → key_at keys i < key
    pub greater : (i : ℕ) → p ≤ i → i < keys.size → key < key_at keys i

  -- `Insert` tests for the key before it goes up, `FindTuple` behind it.
  insert_loop-find_loop :
      (fuel key : ℕ) (keys : Array (Tuple V)) (start end : ℕ)
      → insert_loop fuel key keys start end ≡ find_loop fuel key keys start end
  unfolding insert_loop find_loop at
  insert_loop-find_loop zero key keys start end = refl
  insert_loop-find_loop (suc fuel) key keys start end =
      let index = add32 start end / 2 in
      ground (
        arith,
        insert_loop-find_loop fuel key keys start (sub32 index 1),
        insert_loop-find_loop fuel key keys (add32 index 1) end,
      )

  -- What the loop keeps: keys below `start` are less, and keys behind `end` are greater.
  record Inside (key : ℕ) (keys : Array (Tuple V)) (start end : ℕ) : Type 0 where
    close : start ≤ end + 1
    top : start ≤ keys.size
    above : end ≤ keys.size
    less : (i : ℕ) → i < start → key_at keys i < key
    greater : (i : ℕ) → end < i → i < keys.size → key < key_at keys i

  -- How the loop ends.
  record Ends (key : ℕ) (keys : Array (Tuple V)) (r : Option (Outcome Search)) : Type 0 where
    start : ℕ
    is_ended : r ≡ some (ok (ended start))
    between : Between key keys (position key keys start)

  up :
      (keys : Array (Tuple V)) (i j : ℕ)
      → IsSorted keys
      → i ≤ j
      → j < keys.size
      → key_at keys i ≤ key_at keys j
  up keys i j sorted le hj = elim (dec_lt i j) [
    | yes h ↦ omega (arith, sorted i j h hj)
    | no h ↦ let same : i ≡ j = omega arith in omega (arith, ap (key_at keys) same)
  ]

  position-Between :
      (key : ℕ) (keys : Array (Tuple V)) (start end : ℕ)
      → IsSorted keys
      → IsAbsent key keys
      → keys.size < 2 ^ 31
      → Inside key keys start end
      → ¬ (start < end)
      → Between key keys (position key keys start)
  position-Between key keys start end sorted absent small r stop = elim (dec_lt start keys.size) [
    | no h ↦
        let at_end : leb keys.size start ≡ true = ground (arith, h) in
        rw at_end
          (record { inside = r.top; less = r.less; greater = λ i hi hs. absurd (omega arith) })
    | yes h ↦
        let not_end : leb keys.size start ≡ false = ground (arith, h) in
        elim (dec_lt key (key_at keys start)) [
          | yes g ↦
              let here : ltb key (key_at keys start) ≡ true = ground (arith, g) in
              rw (not_end, here)
                (record {
                  inside = r.top;
                  less = r.less;
                  greater = λ i hi hs. omega (arith, g, up keys start i sorted hi hs);
                })
          | no g ↦
              let behind : ltb key (key_at keys start) ≡ false = ground (arith, g) in
              let next : add32 start 1 ≡ start + 1 = omega arith in
              let last : key_at keys start < key = omega (arith, g, absent start h) in
              rw (not_end, behind, next)
                (record {
                  inside = omega arith;
                  less = λ i hi. omega (arith, last, up keys i start sorted (omega arith) h);
                  greater = λ i hi hs. r.greater i (omega (arith, stop, hi, r.close)) hs;
                })
        ]
  ]

  not_first :
      (key : ℕ) (keys : Array (Tuple V)) (index : ℕ)
      → key < key_at keys index
      → key_at keys 0 < key
      → 0 < index
  not_first key keys zero less first = absurd (omega (arith, less, first))
  not_first key keys (suc index) less first = omega arith

  find_loop-Ends :
      (fuel key : ℕ) (keys : Array (Tuple V)) (start end : ℕ)
      → IsSorted keys
      → IsAbsent key keys
      → keys.size < 2 ^ 31
      → key_at keys 0 < key
      → Inside key keys start end
      → end - start < fuel
      → Ends key keys (find_loop fuel key keys start end)
  unfolding find_loop at
  find_loop-Ends zero key keys start end sorted absent small first r enough = absurd (omega arith)
  find_loop-Ends (suc fuel) key keys start end sorted absent small first r enough =
      elim (dec_lt start end) [
        | no h ↦
            let stops : ltb start end ≡ false = ground (arith, h) in
            rw (find_loop, stops)
              (record {
                start = start;
                is_ended = refl;
                between = position-Between key keys start end sorted absent small r h;
              })
        | yes h ↦
            let index = add32 start end / 2 in
            let middle : index ≡ (start + end) / 2 = omega (arith, r.above) in
            let inside : index < keys.size = omega (arith, r.above) in
            let goes : ltb start end ≡ true = ground (arith, h) in
            let reads : leb keys.size index ≡ false = ground (arith, inside) in
            elim (dec_lt key (key_at keys index)) [
              | yes less ↦
                  let left : ltb key (key_at keys index) ≡ true = ground (arith, less) in
                  let positive : 0 < index = not_first key keys index less first in
                  let one_down : sub32 index 1 ≡ index - 1 = omega arith in
                  rw (find_loop, goes, at, reads, left, one_down)
                    (find_loop-Ends fuel key keys start (index - 1) sorted absent small first
                      (record {
                        close = omega arith;
                        top = r.top;
                        above = omega arith;
                        less = r.less;
                        greater =
                            λ i hi hs. omega (arith, less, up keys index i sorted (omega arith) hs);
                      })
                      (omega arith))
              | no l ↦
                  let left : ltb key (key_at keys index) ≡ false = ground (arith, l) in
                  let more : key_at keys index < key = omega (arith, l, absent index inside) in
                  let right : ltb (key_at keys index) key ≡ true = ground (arith, more) in
                  let one_up : add32 index 1 ≡ index + 1 = omega arith in
                  rw (find_loop, goes, at, reads, left, right, one_up)
                    (find_loop-Ends fuel key keys (index + 1) end sorted absent small first
                      (record {
                        close = omega arith;
                        top = omega arith;
                        above = r.above;
                        less = λ i hi.
                            omega (arith, more, up keys i index sorted (omega arith) inside);
                        greater = r.greater;
                      })
                      (omega arith))
            ]
      ]

  look_absent :
      (key : ℕ) (keys : Array (Tuple V)) (start : ℕ)
      → IsAbsent key keys
      → look key keys (ended start) ≡ none
  look_absent key keys start absent = elim (dec_lt start keys.size) [
    | yes h ↦ ground (arith, h, absent start h)
    | no h ↦ ground (arith, h)
  ]

  -- In a dictionary with keys that go up, fewer than 2 ^ 31 of them, `operator[]` with a key that is not
  -- there and is greater than the first one enters a tuple with the key and the default value at the
  -- index at which all keys before are less and all keys from there on are greater; rounds one more than
  -- keys are enough.
  pub lookup-absent :
      (fuel key : ℕ) (fresh : ℕ → Tuple V) (value : V) (keys : Array (Tuple V))
      → IsSorted keys
      → IsAbsent key keys
      → keys.size < 2 ^ 31
      → 0 < keys.size
      → key_at keys 0 < key
      → keys.size < fuel
      → (p : ℕ) × Between key keys p
        × (lookup fuel fresh value key keys
            ≡ some (ok (insert_at fresh p (record { key = key; value = value }) keys, p)))
  unfolding find_tuple is_empty lookup insert
  lookup-absent fuel key fresh value keys sorted absent small some_key first enough =
      let some_keys : (keys.size == 0) ≡ false = ground (arith, some_key) in
      let r =
        find_loop-Ends fuel key keys 0 keys.size sorted absent small first
          (record {
            close = omega arith;
            top = omega arith;
            above = omega arith;
            less = λ i hi. absurd (omega arith);
            greater = λ i hi hs. absurd (omega arith);
          })
          (omega arith) in
      let p = position key keys r.start in
      let new : Array (Tuple V) × ℕ =
        (insert_at fresh p (record { key = key; value = value }) keys, p) in
      let missed : find_tuple fuel key keys ≡ some (ok none) =
        rw (some_keys, r.is_ended) (ap (λ o. some (ok o)) (look_absent key keys r.start absent)) in
      let entered : insert fuel fresh key value keys ≡ some (ok new) =
        rw (some_keys, insert_loop-find_loop fuel key keys 0 keys.size, r.is_ended) refl in
      (p, r.between, ap (or_insert (insert fuel fresh key value keys) keys) missed ∙ entered)
