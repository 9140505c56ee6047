-- ===== src/Memory/Map.antt =====
-- kernel/Core/Memory.cpp: the entries of the memory map that the boot loader leaves, and `SortEntries`.
-- A base is not negative, and the fields that sorting does not read stay with their entry.
pub mod Sorting
pub mod Ending
mod Tests
use baby_osv.Base.{
  ℕ, zero, suc, Bool, true, false, Option, none, some, List, [], ◌∷◌, leb, if◌then◌else◌,
}

-- `MemoryInfo_t`
pub record Entry : Type 0 where
  pub base : ℕ
  pub length : ℕ
  pub type : ℕ
  pub attr : ℕ

-- The `for` loop: `x` is `memoryEntries[a - 1]`. The results are `changed` and the entries.
unfoldable pub pass : Entry → List Entry → Bool × List Entry
pass x [] = (false, x ∷ [])
pass x (y ∷ ys) =
    let swapped = pass x ys in
    let kept = pass y ys in
    if leb y.base x.base then (true, y ∷ swapped.1) else (kept.0, x ∷ kept.1)

unfoldable pub pass_all : List Entry → Bool × List Entry
unfolding pass
pass_all [] = (false, [])
pass_all (x ∷ xs) = pass x xs

-- `SortEntries` for at most `rounds` rounds of its `while` loop; `none`: it has not come to an end.
unfoldable pub sort_entries : ℕ → List Entry → Option (List Entry)
unfolding pass_all
sort_entries zero es = none
sort_entries (suc rounds) es =
    let r = pass_all es in let rest = sort_entries rounds r.1 in if r.0 then rest else some r.1
