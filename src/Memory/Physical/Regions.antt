-- ===== src/Memory/Physical/Regions.antt =====
-- `AddFreeMemory` and `ReserveMemory`: which pages a region of addresses changes.
use native.Mathlib.Decide.{dec_lt}
use baby_osv.Base.{
  ℕ, zero, suc, ◌+◌, ◌-◌, ◌*◌, ◌/◌, ◌%◌, ◌≤◌, ◌<◌, ◌≡◌, refl, ◌∙◌, subst, ◌≢◌, ◌⊎◌, inl, inr, Bool,
  true, false, List, arith, length, ltb, leb, ◌==◌, ◌&&◌, if◌then◌else◌, Bool-cases, set,
  length-set, add32,
}
use baby_osv.Base.Outcome.{ok, fault}
use baby_osv.Memory.Physical.{
  Physical, page_size, bitmap_bytes, add_free_memory, reserve_memory, mark, set_bit, mark_pages,
  raise_max, raise_max_reserved,
}
use baby_osv.Memory.Physical.Bits.{is_free, is_free-set}

-- `bits'` is `bits` with the pages from `lo` to before `hi` set to `v`.
abbrev pub Marked : Bool → ℕ → ℕ → List Bool → List Bool → Type 0
Marked v lo hi bits bits' =
    (j : ℕ)
    → is_free bits' j
      ≡ (if leb lo j && (ltb j hi && ltb j (length bits)) then v else is_free bits j)

pub mark-Marked :
    (v : Bool) (count index : ℕ) (bits : List Bool)
    → index + count ≤ length bits
    → length bits ≤ bitmap_bytes * 8
    → (bits' : List Bool) × (mark v count index bits ≡ ok bits')
      × Marked v index (index + count) bits bits'
      × (length bits' ≡ length bits)
unfolding mark set_bit
mark-Marked v zero index bits fits small = (bits, refl, λ j. ground arith, refl)
mark-Marked v (suc count) index bits fits small =
    let first = set bits index v in
    let (bits', e, marked, len) =
      mark-Marked v count (index + 1) first (omega (arith, length-set bits index v))
        (omega (arith, length-set bits index v)) in
    (
      bits',
      ground arith,
      λ j. ground (arith, marked j, is_free-set bits index j v, length-set bits index v),
      len ∙ length-set bits index v,
    )

-- Past the last byte the loop goes on for one more byte of pages.
pub mark-fault :
    (v : Bool) (count index : ℕ) (bits : List Bool)
    → length bits ≡ bitmap_bytes * 8
    → index ≤ length bits
    → length bits < index + count
    → mark v count index bits ≡ fault
unfolding mark set_bit
mark-fault v zero index bits len le over = absurd (omega arith)
mark-fault v (suc count) index bits len le over = elim (dec_lt index (length bits)) [
  | yes p ↦
      let rest =
        mark-fault v count (index + 1) (set bits index v) (length-set bits index v ∙ len)
          (omega (arith, length-set bits index v)) (omega (arith, length-set bits index v)) in
      ground arith
  | no p ↦ ground arith
]

mark_pages-ok :
    (v : Bool) (index count : ℕ) (t : Physical) {bits bits' : List Bool}
    → t.memory_bitmap ≡ bits
    → mark v count index bits ≡ ok bits'
    → mark_pages v index count t ≡ ok (record t { memory_bitmap = bits' })
unfolding mark_pages
mark_pages-ok v index count t same e = rw (same, e)

-- The page `j` lies inside the region; the region touches the page `j`.
abbrev pub Inside : ℕ → ℕ → ℕ → Type 0
Inside address len j = (address ≤ j * page_size) × (j * page_size + page_size ≤ address + len)

abbrev pub Touches : ℕ → ℕ → ℕ → Type 0
Touches address len j = (j * page_size < address + len) × (address < j * page_size + page_size)

module _ (address len : ℕ) (s : Physical) (size : length s.memory_bitmap ≡ bitmap_bytes * 8)
    (fits : address + len ≤ bitmap_bytes * 8 * page_size) where
  raised : (raise_max address len s).memory_bitmap ≡ s.memory_bitmap
  unfolding raise_max
  raised = ground arith

  -- The bitmap after `AddFreeMemory`: the pages from `lo` to before `hi` are free, and the others as
  -- they were.
  record Added (s' : Physical) : Type 0 where
    lo : ℕ
    hi : ℕ
    marked : Marked true lo hi s.memory_bitmap s'.memory_bitmap
    inside : (j : ℕ) → lo ≤ j → j < hi → Inside address len j
    all : address % page_size ≡ 0 → (j : ℕ) → Inside address len j → (lo ≤ j) × (j < hi)

  nothing-Added :
      ((j : ℕ) → address % page_size ≡ 0 → ¬ Inside address len j) → Added (raise_max address len s)
  nothing-Added none_inside = record {
    lo = 0;
    hi = 0;
    marked = λ j. rw raised (ground arith);
    inside = λ j a b. absurd (omega arith);
    all = λ even j i. absurd (none_inside j even i);
  }

  run-Added :
      (index count : ℕ)
      → index + count ≤ bitmap_bytes * 8
      → ((j : ℕ) → index ≤ j → j < index + count → Inside address len j)
      → (address % page_size ≡ 0
          → (j : ℕ) → Inside address len j
          → (index ≤ j) × (j < index + count))
      → (s' : Physical) × (mark_pages true index count (raise_max address len s) ≡ ok s') × Added s'
  unfolding mark_pages
  run-Added index count room inside all =
      let (bits, e, marked, _) =
        mark-Marked true count index s.memory_bitmap (omega (arith, size)) (omega (arith, size)) in
      (
        record (raise_max address len s) { memory_bitmap = bits },
        mark_pages-ok true index count _ raised e,
        record { lo = index; hi = index + count; marked = marked; inside = inside; all = all },
      )

  add_free_memory-Added : (s' : Physical) × (add_free_memory address len s ≡ ok s') × Added s'
  unfolding add_free_memory
  add_free_memory-Added = elim (Bool-cases (len / page_size == 0)) [
    | inl e ↦ (raise_max address len s, rw e, nothing-Added (λ j even i. ground arith))
    | inr e ↦ elim (Bool-cases (address % page_size == 0)) [
      | inl even ↦
          rw (e, even)
            (run-Added (address / page_size) (len / page_size) (ground arith)
              (λ j a b. ground arith) (λ _ j i. ground arith))
      | inr odd ↦ elim (Bool-cases (len / page_size - 1 == 0)) [
        | inl one ↦
            (raise_max address len s, rw (e, odd, one), nothing-Added (λ j even i. ground arith))
        | inr more ↦
            rw (e, odd, more)
              (run-Added (address / page_size + 1) (len / page_size - 1) (ground arith)
                (λ j a b. ground arith) (λ even j i. ground arith))
      ]
    ]
  ]

  -- For a region inside the 32 MB of the bitmap, `AddFreeMemory` succeeds. It frees only pages that lie
  -- inside the region, it changes no other page, and if the region starts at a page's address, every
  -- page inside it is free.
  pub add_free_memory_lem :
      (s' : Physical) × (add_free_memory address len s ≡ ok s')
      × ((j : ℕ)
          → is_free s'.memory_bitmap j ≡ true
          → (is_free s.memory_bitmap j ≡ true) ⊎ Inside address len j)
      × ((j : ℕ) → is_free s.memory_bitmap j ≡ true → is_free s'.memory_bitmap j ≡ true)
      × (address % page_size ≡ 0
          → (j : ℕ) → Inside address len j
          → is_free s'.memory_bitmap j ≡ true)
  add_free_memory_lem =
      let (s', e, added) = add_free_memory-Added in
      (
        s',
        e,
        λ j free. ground (arith, added.marked j, added.inside j),
        λ j free. ground (arith, added.marked j),
        λ even j i. ground (arith, added.marked j, added.all even j i, size),
      )

  -- `ReserveMemory` marks as many pages as the length takes, from the page of the address on.
  reserve-Marked :
      (s' : Physical) × (reserve_memory address len s ≡ ok s')
      × Marked false
          (address / page_size)
          (address / page_size + (len + 4095) / page_size)
          s.memory_bitmap
          s'.memory_bitmap
  unfolding reserve_memory
  reserve-Marked =
      let words : add32 len (page_size - 1) / page_size ≡ (len + 4095) / page_size = omega arith in
      let (bits, e, marked, _) =
        mark-Marked false (add32 len (page_size - 1) / page_size) (address / page_size)
          s.memory_bitmap (omega (arith, size)) (omega (arith, size)) in
      (
        record (raise_max_reserved address len s) { memory_bitmap = bits },
        mark_pages-ok false (address / page_size) _ _ raised_reserved e,
        subst
            (λ n. Marked false (address / page_size) (address / page_size + n) s.memory_bitmap bits)
            words marked,
      )
    where
      raised_reserved : (raise_max_reserved address len s).memory_bitmap ≡ s.memory_bitmap
      raised_reserved = ground arith

  -- For a region inside the 32 MB of the bitmap that starts at a page's address, `ReserveMemory`
  -- succeeds; the pages that the region touches are reserved, and no other page changes.
  pub reserve_memory_lem :
      address % page_size ≡ 0
      → (s' : Physical) × (reserve_memory address len s ≡ ok s')
        × ((j : ℕ) → Touches address len j → is_free s'.memory_bitmap j ≡ false)
        × ((j : ℕ)
            → ¬ Touches address len j
            → is_free s'.memory_bitmap j ≡ is_free s.memory_bitmap j)
  reserve_memory_lem even =
      let (s', e, marked) = reserve-Marked in
      (s', e, λ j t. ground (arith, marked j, size), λ j t. ground (arith, marked j))

  -- For a region inside the 32 MB of the bitmap that starts inside a page and is a positive number of
  -- pages long, `ReserveMemory` leaves the last page that the region touches as it was.
  pub reserve_misses_last :
      address % page_size ≢ 0
      → len % page_size ≡ 0
      → 0 < len
      → (s' : Physical) × (reserve_memory address len s ≡ ok s')
        × Touches address len ((address + len) / page_size)
        × (is_free s'.memory_bitmap ((address + len) / page_size)
            ≡ is_free s.memory_bitmap ((address + len) / page_size))
  reserve_misses_last odd whole pos =
      let (s', e, marked) = reserve-Marked in
      (s', e, omega arith, ground (arith, marked ((address + len) / page_size)))
