-- ===== src/Memory/Logical/Mapping.antt =====
-- What mapping and unmapping pages does to the addresses that the kernel reads back.
use native.Mathlib.Decide.{ℕ_discrete}
use baby_osv.Base.{
  ℕ, ◌*◌, ◌/◌, ◌%◌, ◌^◌, ◌<◌, ◌≡◌, refl, ap, ◌∙◌, sym, ◌≢◌, ◌⊎◌, inl, inr, true, false, ◌||◌, ◌==◌,
  update, update_self, u32_mod, arith, Bool-cases,
}
use baby_osv.Base.Outcome.{Outcome, ok, halted, fault, ◌>>=◌}
use baby_osv.Memory.Physical.{page_size, free_page}
use baby_osv.Memory.Logical.{
  Entry, Paging, entry, set_entry, directory_index, table_index, get_physical_from_logical,
  leads_to, with_table, map_page, unmap, free,
}

-- Below the tables themselves, which are mapped at 0xffc00000.
abbrev pub IsOrdinary : ℕ → Type 0
IsOrdinary ptr = ptr < 0xffc00000

entry_set : (a b : ℕ) (e : Entry) (s : Paging) → a ≢ 1023 → entry (set_entry a b e s) a b ≡ e
entry_set a b e s below =
    let other : (a == 1023) ≡ false = ground (arith, below) in
    rw (other, update_self s.tables a (update (s.tables a) b e)) (update_self (s.tables a) b e)

entry_set_other :
    (a b c d : ℕ) (e : Entry) (s : Paging)
    → a ≢ 1023
    → c ≢ 1023
    → (a ≢ c) ⊎ (b ≢ d)
    → entry (set_entry a b e s) c d ≡ entry s c d
unfolding update
entry_set_other a b c d e s below below' apart = ground (arith, below, below', apart)

with_table-entry :
    (a c d : ℕ) (s : Paging)
    → a ≢ 1023
    → c ≢ 1023
    → (s.directory c).address ≢ 0
    → entry (with_table a s) c d ≡ entry s c d
unfolding with_table update
with_table-entry a c d s below below' used = ground (arith, below, below', used)

index_below : (ptr : ℕ) → IsOrdinary ptr → directory_index ptr ≢ 1023
index_below ptr h e = omega (arith, h, e)

other_indices :
    (p q : ℕ)
    → p / 4096 ≢ q / 4096
    → (directory_index p ≢ directory_index q) ⊎ (table_index p ≢ table_index q)
other_indices p q apart = elim (ℕ_discrete (directory_index p) (directory_index q)) [
  | no h ↦ inl h
  | yes h ↦ inr (λ e. apart (omega (arith, h, e)))
]

-- Where `Map` maps a page of memory to an ordinary address, the address then leads to that page; every
-- other page whose table is there leads to what it did before.
pub map_page_lem :
    (phys logic : ℕ) (s : Paging)
    → phys ≢ 0
    → phys < u32_mod
    → phys % page_size ≡ 0
    → logic ≢ 0
    → IsOrdinary logic
    → (t : Paging) × (map_page phys logic s ≡ ok t)
      × (get_physical_from_logical t logic ≡ phys)
      × ((q : ℕ)
          → IsOrdinary q
          → q / page_size ≢ logic / page_size
          → (s.directory (directory_index q)).address ≢ 0
          → get_physical_from_logical t q ≡ get_physical_from_logical s q)
unfolding map_page get_physical_from_logical
map_page_lem phys logic s some_page word aligned somewhere ordinary =
    let a = directory_index logic in
    let b = table_index logic in
    let there = with_table a s in
    let below = index_below logic ordinary in
    let none_zero : ((phys == 0) || (logic == 0)) ≡ false = ground (arith, some_page, somewhere) in
    (
      set_entry a b (leads_to phys) there,
      rw none_zero refl,
      ap (λ e. e.address * 2 ^ 12 % u32_mod) (entry_set a b (leads_to phys) there below)
          ∙ omega (arith, word, aligned),
      λ q hq apart used.
          let below' = index_below q hq in
          ap (λ e. e.address * 2 ^ 12 % u32_mod)
            (entry_set_other a b (directory_index q) (table_index q) (leads_to phys) there below
                below' (other_indices logic q (λ e. apart (sym e)))
              ∙ with_table-entry a (directory_index q) (table_index q) s below below' used),
    )

unmap-present :
    (logic : ℕ) (s : Paging)
    → (entry s (directory_index logic) (table_index logic)).present ≡ true
    → unmap logic s ≡ halted
unfolding unmap
unmap-present logic s present = elim (Bool-cases (logic % 1024 == 0)) [
  | inl e ↦ rw (e, present) refl
  | inr e ↦ rw e refl
]

-- A call whose second part is always halted does not return.
never :
    {A : Type 0} {B : Type 0} {t : B} (first : Outcome A) {rest : A → Outcome B}
    → ((a : A) → rest a ≡ halted)
    → (first >>= rest) ≢ ok t
never (ok a) {rest} halts e = let stops : rest a ≡ halted = halts a in cc
never halted halts e = cc
never fault halts e = cc

-- `Unmap` of an address that is mapped fails its second `ASSERT`, or its first, and `Free` of it never
-- returns.
pub unmap_halts :
    (logic : ℕ) (s : Paging)
    → (entry s (directory_index logic) (table_index logic)).present ≡ true
    → (unmap logic s ≡ halted) × ((t : Paging) → free logic s ≢ ok t)
unfolding free
unmap_halts logic s present =
    let phys = (entry s (directory_index logic) (table_index logic)).address * 2 ^ 12 % u32_mod in
    (
      unmap-present logic s present,
      λ t.
          never (free_page phys s.physical)
            (λ p. unmap-present logic (record s { physical = p }) present),
    )
