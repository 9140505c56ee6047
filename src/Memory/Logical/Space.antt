-- ===== src/Memory/Logical/Space.antt =====
-- The search for addresses that nothing is mapped to.
use native.Mathlib.Decide.{dec_lt}
use baby_osv.Base.{
  ℕ, zero, suc, ◌+◌, ◌-◌, ◌*◌, ◌/◌, ◌%◌, ◌^◌, u32_mod, ◌≤◌, ◌<◌, ◌≡◌, refl, ap, ap₂, ◌∙◌, subst,
  inl, inr, Bool, true, false, ◌&&◌, Option, none, some, leb, arith, Bool-cases,
}
use Prim.Native.Nat.{bit_or}
use baby_osv.Digits.{or_table, or_carry}
use baby_osv.Memory.Physical.{page_size}
use baby_osv.Memory.Logical.{
  pages_needed, ab_to_addr, find_free_logical_space, Paging, entry, Run, scan_entries, after_table,
  scan_tables, find_run,
}

-- Whether something is mapped to the page, of all pages of the address space counted.
abbrev pub is_mapped : Paging → ℕ → Bool
is_mapped s p = (s.directory (p / 1024)).present && (entry s (p / 1024) (p % 1024)).present

-- The first page of a run.
abbrev pub first_page : Run → ℕ
first_page r = r.start_table * 1024 + r.start_entry

-- The run ends before page `p`, and nothing is mapped to its pages.
pub record IsRun (s : Paging) (p : ℕ) (r : Run) : Type 0 where
  pub ends : first_page r + r.free ≡ p
  pub unmapped : (k : ℕ) → k < r.free → is_mapped s (first_page r + k) ≡ false

-- A run that ends where its last page is.
abbrev pub Found : Paging → ℕ → Run → Type 0
Found s needed r = (p : ℕ) × IsRun s p r × (p ≤ 1024 * 1024) × (needed ≤ r.free)

-- How the loop over a table's entries ends: with enough pages, or with a run up to the next table.
abbrev Scanned : Paging → ℕ → ℕ → Bool × Run → Type 0
Scanned s needed a (true, r) = Found s needed r
Scanned s needed a (false, r) = IsRun s (a * 1024 + 1024) r

IsRun-more :
    (s : Paging) (p : ℕ) (r : Run)
    → IsRun s p r
    → is_mapped s p ≡ false
    → IsRun s (p + 1) (record r { free = r.free + 1 })
IsRun-more s p r run new = record {
  ends = omega (arith, run.ends);
  unmapped = λ k hk. elim (dec_lt k r.free) [
    | yes h ↦ run.unmapped k h
    | no h ↦
        let last : first_page r + k ≡ p = omega (arith, run.ends, hk, h) in
        ap (is_mapped s) last ∙ new
  ];
}

page_of : (a b : ℕ) → b < 1024 → ((a * 1024 + b) / 1024 ≡ a) × ((a * 1024 + b) % 1024 ≡ b)
page_of a b h = (omega (arith, h), omega (arith, h))

and_false : (x : Bool) → (x && false) ≡ false
and_false true = refl
and_false false = refl

unmapped_entry :
    (s : Paging) (a b : ℕ)
    → b < 1024
    → (entry s a b).present ≡ false
    → is_mapped s (a * 1024 + b) ≡ false
unmapped_entry s a b h e =
    ap₂ (λ x y. (s.directory x).present && (entry s x y).present) (page_of a b h).0
      (page_of a b h).1
    ∙ ap (λ v. (s.directory a).present && v) e
    ∙ and_false (s.directory a).present

unmapped_table :
    (s : Paging) (a b : ℕ)
    → b < 1024
    → (s.directory a).present ≡ false
    → is_mapped s (a * 1024 + b) ≡ false
unmapped_table s a b h e =
    ap₂ (λ x y. (s.directory x).present && (entry s x y).present) (page_of a b h).0
      (page_of a b h).1
    ∙ ap (λ v. v && (entry s a b).present) e

scan_entries-Scanned :
    (n needed a b : ℕ) (s : Paging) (r : Run)
    → a < 1024
    → b + n ≡ 1024
    → IsRun s (a * 1024 + b) r
    → Scanned s needed a (scan_entries n needed s a b r)
unfolding scan_entries
scan_entries-Scanned zero needed a b s r ha hb run =
    subst (λ p. IsRun s p r) (omega (arith, hb)) run
scan_entries-Scanned (suc n) needed a b s r ha hb run = elim (Bool-cases (entry s a b).present) [
  | inl e ↦
      let q : Run = record { free = 0; start_table = a; start_entry = b + 1 } in
      rw (scan_entries, e)
        (scan_entries-Scanned n needed a (b + 1) s q ha (omega arith)
          (record { ends = omega arith; unmapped = λ k hk. absurd (omega arith) }))
  | inr e ↦
      let more : Run = record r { free = r.free + 1 } in
      let new : is_mapped s (a * 1024 + b) ≡ false = unmapped_entry s a b (omega (arith, hb)) e in
      let longer = IsRun-more s (a * 1024 + b) r run new in
      elim (Bool-cases (leb needed (r.free + 1))) [
        | inl g ↦
            rw (scan_entries, e, g)
              (a * 1024 + b + 1, longer, omega (arith, ha, hb), ground (arith, g))
        | inr g ↦
            rw (scan_entries, e, g)
              (scan_entries-Scanned n needed a (b + 1) s more ha (omega arith)
                (subst (λ p. IsRun s p more) (omega arith) longer))
      ]
]

-- A table that is not there has 1024 pages more for the run.
IsRun-table :
    (s : Paging) (a : ℕ) (r : Run)
    → IsRun s (a * 1024) r
    → (s.directory a).present ≡ false
    → IsRun s (a * 1024 + 1024) (record r { free = r.free + 1024 })
IsRun-table s a r run none_there = record {
  ends = omega (arith, run.ends);
  unmapped = λ k hk. elim (dec_lt k r.free) [
    | yes h ↦ run.unmapped k h
    | no h ↦
        let b = k - r.free in
        let here : first_page r + k ≡ a * 1024 + b = omega (arith, run.ends, h) in
        ap (is_mapped s) here ∙ unmapped_table s a b (omega (arith, hk)) none_there
  ];
}

-- The result of the loop over the tables, where there is one.
abbrev Result : Paging → ℕ → Option Run → Type 0
Result s needed none = Unit {0}
Result s needed (some r) = Found s needed r

after_table-Result :
    (needed a : ℕ) (s : Paging) (x : Bool × Run) (again : Run → Option Run)
    → a < 1024
    → Scanned s needed a x
    → ((r : Run) → IsRun s (a * 1024 + 1024) r → Result s needed (again r))
    → Result s needed (after_table needed x again)
after_table-Result needed a s (true, r) again ha found rest = found
after_table-Result needed a s (false, r) again ha run rest = elim (Bool-cases (leb needed r.free)) [
  | inl e ↦ rw (Result, e) (a * 1024 + 1024, run, omega (arith, ha), ground (arith, e))
  | inr e ↦ rw (Result, e) (rest r run)
]

scan_tables-Result :
    (n needed a : ℕ) (s : Paging) (r : Run)
    → a + n ≡ 1024
    → IsRun s (a * 1024) r
    → Result s needed (scan_tables n needed s a r)
unfolding scan_tables
scan_tables-Result zero needed a s r ha run = tt
scan_tables-Result (suc n) needed a s r ha run =
    let rest = λ (q : Run) (h : IsRun s (a * 1024 + 1024) q).
      scan_tables-Result n needed (a + 1) s q (omega arith)
        (subst (λ p. IsRun s p q) (omega arith) h) in
    let more : Run = record r { free = r.free + 1024 } in
    elim (Bool-cases (s.directory a).present) [
      | inl e ↦ rw e (
          after_table-Result needed a s (scan_entries 1024 needed s a 0 r)
            (λ q. scan_tables n needed s (a + 1) q) (omega (arith, ha))
            (scan_entries-Scanned 1024 needed a 0 s r (omega (arith, ha)) refl
              (subst (λ p. IsRun s p r) (omega arith) run))
            rest)
      | inr e ↦ rw e (
          after_table-Result needed a s (false, more) (λ q. scan_tables n needed s (a + 1) q)
            (omega (arith, ha)) (IsRun-table s a r run e) rest)
    ]

find_run-Found : (needed : ℕ) (s : Paging) (r : Run) → find_run needed s ≡ some r → Found s needed r
unfolding find_run
find_run-Found needed s r e =
    let start : Run = record { free = 0; start_table = 512; start_entry = 0 } in
    subst (Result s needed) e (
      scan_tables-Result 512 needed 512 s start refl
        (record { ends = refl; unmapped = λ k hk. absurd (omega arith) }))

-- Where `FindFreeLogicalSpace`, for at least one page, finds a run that does not start behind the last
-- entry of a table, it returns the address of the run's first page; the pages that are needed lie inside
-- the address space and nothing is mapped to any of them.
pub find_free_logical_space_lem :
    (size : ℕ) (s : Paging) (r : Run)
    → 0 < pages_needed size
    → find_run (pages_needed size) s ≡ some r
    → r.start_entry < 1024
    → (find_free_logical_space size s ≡ first_page r * page_size)
      × (first_page r + pages_needed size ≤ 1024 * 1024)
      × ((k : ℕ) → k < pages_needed size → is_mapped s (first_page r + k) ≡ false)
unfolding find_free_logical_space
find_free_logical_space_lem size s r some_pages e inside =
    let (p, run, top, enough) = find_run-Found (pages_needed size) s r e in
    let low : r.start_table * 2 ^ 22 % u32_mod ≡ r.start_table * 4194304 =
      omega (arith, run.ends, top, enough, some_pages) in
    (
      ap ab_to_addr e
          ∙ ap (λ n. bit_or n (r.start_entry * 2 ^ 12)) low
          ∙ or_table r.start_table (r.start_entry * 2 ^ 12) (omega (arith, inside))
          ∙ omega arith,
      omega (arith, run.ends, top, enough),
      λ k hk. run.unmapped k (omega (arith, hk, enough)),
    )

-- Where the run that it finds starts behind the last entry of a table with an odd index, it returns an
-- address 4 MB before the run: the first one of that table, in which the last entry is used.
pub find_free_logical_space_early :
    (size : ℕ) (s : Paging) (r : Run)
    → 0 < pages_needed size
    → find_run (pages_needed size) s ≡ some r
    → r.start_entry ≡ 1024
    → r.start_table % 2 ≡ 1
    → find_free_logical_space size s + 2 ^ 22 ≡ first_page r * page_size
unfolding find_free_logical_space
find_free_logical_space_early size s r some_pages e behind odd =
    let (p, run, top, enough) = find_run-Found (pages_needed size) s r e in
    let low : r.start_table * 2 ^ 22 % u32_mod ≡ r.start_table * 4194304 =
      omega (arith, run.ends, top, enough, some_pages) in
    let high : r.start_entry * 2 ^ 12 ≡ 4194304 = omega (arith, behind) in
    let address : find_free_logical_space size s ≡ r.start_table * 4194304 =
      ap ab_to_addr e ∙ ap₂ bit_or low high ∙ or_carry r.start_table odd in
    omega (arith, address, behind)
