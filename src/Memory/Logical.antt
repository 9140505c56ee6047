-- ===== src/Memory/Logical.antt =====
-- kernel/Core/Memory_Logical.cpp: the page directory and the page tables. A table is reached by its index
-- in the directory; the last entry of the directory is mapped to the directory itself, so table 1023 is
-- the directory. Refreshing the processor's cache of entries changes nothing here. `halted` stands for
-- the endless loops behind a message too.
pub mod Mapping
pub mod Space
mod Tests
use Prim.Native.Nat.{bit_or}
use baby_osv.Base.{
  ℕ, zero, suc, ◌+◌, ◌-◌, ◌*◌, ◌/◌, ◌%◌, ◌^◌, Bool, true, false, not, ◌&&◌, ◌||◌, Option, none,
  some, ltb, leb, ◌==◌, if◌then◌else◌, update, add32, u32_mod,
}
use baby_osv.Base.Outcome.{Outcome, ok, halted, fault, ◌>>=◌, ◌>>◌, assert}
use baby_osv.Memory.Physical.{Physical, page_size, alloc_page, free_page}
use baby_osv.Memory.Physical

-- The fields that the code sets of an entry of the directory or a table.
pub record Entry : Type 0 where
  pub present : Bool
  pub read_write : Bool
  pub user_access : Bool
  pub address : ℕ

pub record Paging : Type 0 where
  pub directory : ℕ → Entry
  pub tables : ℕ → ℕ → Entry
  pub physical : Physical

-- `GetLogicPageTable(a)->entries[b]`
abbrev pub entry : Paging → ℕ → ℕ → Entry
entry s a b = if a == 1023 then s.directory b else s.tables a b

abbrev pub set_entry : ℕ → ℕ → Entry → Paging → Paging
set_entry a b e s =
    if a == 1023
    then record s { directory = update s.directory b e }
    else record s { tables = update s.tables a (update (s.tables a) b e) }

abbrev pub directory_index : ℕ → ℕ
directory_index ptr = ptr / 2 ^ 22

abbrev pub table_index : ℕ → ℕ
table_index ptr = ptr / 2 ^ 12 % 1024

unfoldable pub get_physical_from_logical : Paging → ℕ → ℕ
get_physical_from_logical s ptr =
    (entry s (directory_index ptr) (table_index ptr)).address * 2 ^ 12 % u32_mod

abbrev pub absent : Entry
absent = record { present = false; read_write = false; user_access = false; address = 0 }

unfoldable pub disable_first_megabyte_mapping : Paging → Paging
disable_first_megabyte_mapping s = record s { directory = update s.directory 0 absent }

-- An entry that leads to an address.
abbrev pub leads_to : ℕ → Entry
leads_to address = record {
  present = true;
  read_write = true;
  user_access = true;
  address = address / 2 ^ 12;
}

abbrev pub clear_table : ℕ → Paging → Paging
clear_table a s =
    if a == 1023
    then record s { directory = λ b. absent }
    else record s { tables = update s.tables a (λ b. absent) }

-- A new table, with what `Physical::Alloc` returned, which is not looked at.
abbrev pub new_table : ℕ → ℕ × Physical → Paging → Paging
new_table a (address, physical) s =
    clear_table a
      (record s { directory = update s.directory a (leads_to address); physical = physical })

unfoldable pub with_table : ℕ → Paging → Paging
unfolding baby_osv.Memory.Physical.alloc
with_table a s =
    if (s.directory a).address == 0
    then new_table a (baby_osv.Memory.Physical.alloc page_size s.physical) s
    else s

-- `Map` of one page.
unfoldable pub map_page : ℕ → ℕ → Paging → Outcome Paging
unfolding with_table
map_page phys logic s =
    if (phys == 0) || (logic == 0)
    then halted
    else ok (
        set_entry (directory_index logic) (table_index logic) (leads_to phys)
          (with_table (directory_index logic) s))

-- The loop of `Map` over `length` pages.
unfoldable pub map_pages : ℕ → ℕ → ℕ → Paging → Outcome Paging
unfolding map_page
map_pages zero phys logic s = ok s
map_pages (suc count) phys logic s =
    map_page phys logic s >>= map_pages count (add32 phys 0x1000) (add32 logic 0x1000)

-- The variables of `FindFreeLogicalSpace`: `pagesCountFree`, `startA` and `startB`.
pub record Run : Type 0 where
  pub free : ℕ
  pub start_table : ℕ
  pub start_entry : ℕ

-- The loop over the last `n` entries of a table; `true`: enough pages are found.
unfoldable pub scan_entries : ℕ → ℕ → Paging → ℕ → ℕ → Run → Bool × Run
scan_entries zero needed s a b r = (false, r)
scan_entries (suc n) needed s a b r = elim (entry s a b).present [
  | true ↦
      scan_entries n needed s a (b + 1) (record { free = 0; start_table = a; start_entry = b + 1 })
  | false ↦
      let more = record r { free = r.free + 1 } in
      elim (leb needed more.free) [
        | true ↦ (true, more)
        | false ↦ scan_entries n needed s a (b + 1) more
      ]
]

-- What follows the loop over a table's entries.
abbrev pub after_table : ℕ → Bool × Run → (Run → Option Run) → Option Run
after_table needed (true, r) again = some r
after_table needed (false, r) again = elim (leb needed r.free) [ true ↦ some r | false ↦ again r ]

-- The loop over the last `n` tables.
unfoldable pub scan_tables : ℕ → ℕ → Paging → ℕ → Run → Option Run
unfolding scan_entries
scan_tables zero needed s a r = none
scan_tables (suc n) needed s a r =
    after_table needed
      (if (s.directory a).present
        then scan_entries 1024 needed s a 0 r
        else (false, record r { free = r.free + 1024 }))
      (λ q. scan_tables n needed s (a + 1) q)

abbrev pub pages_needed : ℕ → ℕ
pages_needed size = add32 size (page_size - 1) / page_size

-- `abToAddr`
abbrev pub ab_to_addr : Option Run → ℕ
ab_to_addr none = 0
ab_to_addr (some r) = bit_or (r.start_table * 2 ^ 22 % u32_mod) (r.start_entry * 2 ^ 12)

unfoldable pub find_run : ℕ → Paging → Option Run
unfolding scan_tables
find_run needed s =
    scan_tables 512 needed s 512 (record { free = 0; start_table = 512; start_entry = 0 })

unfoldable pub find_free_logical_space : ℕ → Paging → ℕ
unfolding find_run
find_free_logical_space size s = ab_to_addr (find_run (pages_needed size) s)

-- `Map` of a length.
unfoldable pub map : ℕ → ℕ → ℕ → Paging → Outcome (ℕ × Paging)
unfolding map_pages find_free_logical_space
map phys logic length s =
    let place = if logic == 0 then find_free_logical_space length s else logic in
    if place == 0
    then ok (0, s)
    else map_pages (add32 length 0xfff / 2 ^ 12) phys place s >>= λ t. ok (place, t)

unfoldable pub unmap : ℕ → Paging → Outcome Paging
unmap logic s = do
  assert (logic % 1024 == 0)
  let e = entry s (directory_index logic) (table_index logic)
  assert (not e.present)
  ok (
      set_entry (directory_index logic) (table_index logic)
        (record e { address = 0; present = false }) s)

abbrev pub map_new : ℕ → ℕ × Physical → Paging → Outcome Paging
map_new logic (phys, physical) s =
    if phys == 0
    then halted
    else map phys logic page_size (record s { physical = physical }) >>= λ (place, t). ok t

-- The loop of `Alloc`, for `count` more pages; sizes are at most 2 ^ 32 - 4096.
unfoldable pub alloc_pages : ℕ → ℕ → Paging → Outcome Paging
unfolding map alloc_page
alloc_pages zero logic s = ok s
alloc_pages (suc count) logic s =
    map_new logic (alloc_page s.physical) s >>= alloc_pages count (add32 logic page_size)

unfoldable pub alloc : ℕ → Paging → Outcome (ℕ × Paging)
unfolding find_free_logical_space alloc_pages
alloc alloc_size s =
    let logic = find_free_logical_space alloc_size s in
    if logic == 0
    then halted
    else alloc_pages ((alloc_size + (page_size - 1)) / page_size) logic s >>= λ t. ok (logic, t)

unfoldable pub free : ℕ → Paging → Outcome Paging
unfolding unmap free_page
free logic s = do
  physical ←
      free_page ((entry s (directory_index logic) (table_index logic)).address * 2 ^ 12 % u32_mod)
        s.physical
  unmap logic (record s { physical = physical })
