-- ===== src/Memory/Logical/Tests.antt =====
-- An address space in which all of table 513 is mapped.
use baby_osv.Base.{
  ℕ, ◌+◌, ◌*◌, ◌/◌, ◌≤◌, ◌<◌, ◌≡◌, refl, ◌≢◌, true, false, some, [], ◌∷◌, arith, ◌==◌,
  if◌then◌else◌,
}
use baby_osv.Base.Outcome.{ok}
use baby_osv.Memory.Physical.{page_size}
use baby_osv.Memory.Logical.{
  Paging, Run, absent, leads_to, directory_index, get_physical_from_logical, map_page, pages_needed,
  find_run, find_free_logical_space,
}
use baby_osv.Memory.Logical.Mapping.{IsOrdinary, map_page_lem}
use baby_osv.Memory.Logical.Space.{first_page, is_mapped, find_free_logical_space_lem}

abbrev full_table : Paging
full_table = record {
  directory = λ a. if a == 513 then leads_to 0x1000 else absent;
  tables = λ a b. leads_to 0x5000;
  physical = record { memory_bitmap = false ∷ true ∷ true ∷ []; max_memory_index = 3 };
}

-- One page fits before the table.
abbrev before : Run
before = record { free = 1024; start_table = 512; start_entry = 0 }

-- 1025 pages do not.
abbrev behind : Run
behind = record { free = 2048; start_table = 513; start_entry = 1024 }

finds_before : find_run 1 full_table ≡ some before
unfolding find_run
finds_before = refl

finds_behind : find_run 1025 full_table ≡ some behind
unfolding find_run
finds_behind = refl

find_free_logical_space_lem_example :
    (find_free_logical_space 100 full_table ≡ first_page before * page_size)
    × (first_page before + pages_needed 100 ≤ 1024 * 1024)
    × ((k : ℕ) → k < pages_needed 100 → is_mapped full_table (first_page before + k) ≡ false)
find_free_logical_space_lem_example =
    find_free_logical_space_lem 100 full_table before (omega arith) finds_before (omega arith)

map_page_lem_example :
    (t : Paging) × (map_page 0x7000 0x80402000 full_table ≡ ok t)
    × (get_physical_from_logical t 0x80402000 ≡ 0x7000)
    × ((q : ℕ)
        → IsOrdinary q
        → q / page_size ≢ 0x80402000 / page_size
        → (full_table.directory (directory_index q)).address ≢ 0
        → get_physical_from_logical t q ≡ get_physical_from_logical full_table q)
map_page_lem_example =
    map_page_lem 0x7000 0x80402000 full_table (omega arith) (omega arith) refl (omega arith)
      (omega arith)
