-- ===== src/Memory/Physical/Pages.antt =====
-- `AllocPage` and `FreePage`: single pages.
use baby_osv.Base.{
  ℕ, zero, suc, ◌+◌, ◌-◌, ◌*◌, ◌/◌, ◌%◌, ◌≤◌, ◌<◌, ◌≡◌, refl, ap, ◌∙◌, ◌≢◌, ◌⊎◌, inl, inr, Bool,
  true, false, List, [], ◌∷◌, none, some, arith, length, ◌==◌, if◌then◌else◌, Option-cases, set,
  length-set,
}
use baby_osv.Base.Outcome.{ok, halted, fault}
use baby_osv.Memory.Physical.{
  Physical, page_size, alloc_page, first_free, free_page, take_page, set_bit,
}
use baby_osv.Memory.Physical.Bits.{is_free, is_free_lt, is_free-set}

record Lowest (bits : List Bool) (index i : ℕ) : Type 0 where
  above : index ≤ i
  free : is_free bits (i - index) ≡ true
  first : (j : ℕ) → j < i - index → is_free bits j ≡ false

first_free-Lowest :
    (bits : List Bool) (index : ℕ) {i : ℕ} → first_free bits index ≡ some i → Lowest bits index i
unfolding first_free
first_free-Lowest [] index e = cc
first_free-Lowest (true ∷ bs) index {i} e =
    let hit : index ≡ i = ground arith in
    record {
      above = omega arith;
      free = ap (is_free (true ∷ bs)) {y = 0} (omega arith);
      first = λ j h. absurd (omega arith);
    }
first_free-Lowest (false ∷ bs) index {i} e =
    let r = first_free-Lowest bs (index + 1) {i = i} e in
    record {
      above = omega (arith, r.above);
      free =
          ap (is_free (false ∷ bs)) {y = suc (i - (index + 1))} (omega (arith, r.above)) ∙ r.free;
      first = elim [ zero ↦ λ h. refl | suc j ↦ λ h. r.first j (omega arith) ];
    }

first_free-none :
    (bits : List Bool) (index j : ℕ) → first_free bits index ≡ none → is_free bits j ≡ false
unfolding first_free
first_free-none [] index j e = refl
first_free-none (true ∷ bs) index j e = cc
first_free-none (false ∷ bs) index zero e = refl
first_free-none (false ∷ bs) index (suc j) e = first_free-none bs (index + 1) j e

-- The bitmap with one page set anew.
abbrev pub WithPage : Physical → ℕ → Bool → Physical → Type 0
WithPage s page v s' =
    (j : ℕ) → is_free s'.memory_bitmap j ≡ (if page == j then v else is_free s.memory_bitmap j)

pub record PageTaken (s : Physical) (page : ℕ) (s' : Physical) : Type 0 where
  pub was_free : is_free s.memory_bitmap page ≡ true
  pub lowest : (j : ℕ) → j < page → is_free s.memory_bitmap j ≡ false
  pub changed : WithPage s page false s'

reserve-WithPage : (s : Physical) (page : ℕ) → WithPage s page false (take_page s (some page)).1
reserve-WithPage s page j =
    ground (arith, is_free-set s.memory_bitmap page j false, is_free_lt s.memory_bitmap j)

-- `AllocPage` returns the address of the lowest free page and reserves that page alone; or no page is
-- free, it returns `nullptr` and changes nothing.
pub alloc_page_lem :
    (s : Physical)
    → ((alloc_page s ≡ (0, s)) × ((j : ℕ) → is_free s.memory_bitmap j ≡ false))
      ⊎ ((page : ℕ) × ((alloc_page s).0 ≡ page * page_size) × PageTaken s page (alloc_page s).1)
unfolding alloc_page
alloc_page_lem s = elim (Option-cases (first_free s.memory_bitmap 0)) [
  | inl e ↦ inl (rw e, λ j. first_free-none s.memory_bitmap 0 j e)
  | inr (page, e) ↦
      let r = first_free-Lowest s.memory_bitmap 0 {i = page} e in
      inr (
        page,
        rw e,
        rw e (record {
          was_free = ap (is_free s.memory_bitmap) {x = page} {y = page - 0} (omega arith) ∙ r.free;
          lowest = λ j h. r.first j (omega arith);
          changed = reserve-WithPage s page;
        }),
      )
]

-- `FreePage` on each kind of address: one that is not a page's halts, a page beyond the bitmap is an
-- access out of bounds, and any other page becomes free while no other page changes.
pub free_page_lem :
    (addr : ℕ) (s : Physical)
    → (addr % page_size ≢ 0 → free_page addr s ≡ halted)
      × (addr % page_size ≡ 0
          → length s.memory_bitmap ≤ addr / page_size
          → free_page addr s ≡ fault)
      × (addr % page_size ≡ 0
          → addr / page_size < length s.memory_bitmap
          → (s' : Physical) × (free_page addr s ≡ ok s')
            × WithPage s (addr / page_size) true s'
            × (length s'.memory_bitmap ≡ length s.memory_bitmap))
unfolding free_page set_bit
free_page_lem addr s = (
  λ odd. ground arith,
  λ even beyond. ground arith,
  λ even inside. (
    record s { memory_bitmap = set s.memory_bitmap (addr / page_size) true },
    ground arith,
    λ j. ground (arith, is_free-set s.memory_bitmap (addr / page_size) j true),
    length-set s.memory_bitmap (addr / page_size) true,
  ),
)
