-- ===== src/Memory/Boot.antt =====
-- kernel/Core/Memory.cpp: `FixEntries` and `CreateMemoryMap`, which hand the memory map's entries to the
-- physical memory. A base or a length is a `long long`, as its 64 bits. `kernel_beg` and `kernel_end` are
-- what the linker sets; the lengths that `CreateMemoryMap` writes back to the entries are not read again.
pub mod Fixing
mod Tests
use baby_osv.Base.{
  ℕ, zero, suc, ◌+◌, ◌-◌, ◌*◌, ◌/◌, ◌%◌, ◌^◌, Bool, true, false, not, ◌&&◌, ◌||◌, List, [], ◌∷◌,
  map, ltb, leb, ◌==◌, if◌then◌else◌, sub32, u32_mod,
}
use baby_osv.Base.Outcome.{Outcome, ok, ◌>>=◌}
use baby_osv.Memory.Map.{Entry}
use baby_osv.Memory.Physical.{Physical, add_free_memory, reserve_memory}

abbrev pub u64_mod : ℕ
u64_mod = 2 ^ 64

abbrev pub add64 : ℕ → ℕ → ℕ
add64 a b = (a + b) % u64_mod

abbrev pub sub64 : ℕ → ℕ → ℕ
sub64 a b = (a + u64_mod - b) % u64_mod

-- `<` on `long long`
abbrev pub less : ℕ → ℕ → Bool
less a b = ltb (add64 a (2 ^ 63)) (add64 b (2 ^ 63))

-- `& (~0xFFF)`
abbrev pub page_start : ℕ → ℕ
page_start a = a / 4096 * 4096

-- The part of `FixEntries` that cuts off what lies below the kernel's end; `true` is its `continue`.
abbrev pub cut_off : ℕ → ℕ → Entry → Bool × Entry
cut_off kernel_end diff e =
    if less e.length diff
    then (true, record e { base = kernel_end; length = 0 })
    else (false, record e { base = kernel_end; length = sub64 e.length diff })

abbrev pub above_kernel : ℕ → Entry → Bool × Entry
above_kernel kernel_end e =
    if less e.base kernel_end
    then cut_off kernel_end (sub64 kernel_end e.base % u32_mod) e
    else (false, e)

-- The part that moves an entry to whole pages.
abbrev pub shrink : Entry → Entry
shrink e =
    let base = page_start (add64 e.base 0xfff) in
    let diff = sub64 base (e.base % u32_mod) % u32_mod in
    record e { base = base; length = page_start (sub64 e.length diff) }

abbrev pub widen : Entry → Entry
widen e =
    let base = page_start e.base in
    let diff = sub64 base (e.base % u32_mod) % u32_mod in
    record e { base = base; length = page_start (add64 (add64 e.length diff) 0xfff) }

abbrev pub align : Entry → Entry
align e =
    if not (e.base % 4096 == 0) || not (e.length % 4096 == 0)
    then (if e.type == 1 then shrink e else widen e)
    else e

abbrev pub align_unless : Bool × Entry → Entry
align_unless (true, e) = e
align_unless (false, e) = align e

-- One round of `FixEntries`.
unfoldable pub fix_entry : ℕ → Entry → Entry
fix_entry kernel_end e = align_unless (above_kernel (kernel_end % 2 ^ 31) e)

unfoldable pub fix_entries : ℕ → List Entry → List Entry
unfolding fix_entry
fix_entries kernel_end es = map (fix_entry kernel_end) es

-- What `CreateMemoryMap` passes on as the length.
abbrev pub limited : Entry → ℕ
limited e =
    let length =
      if less 0xffffffff (add64 e.base e.length) then sub64 0xffffffff e.base else e.length in
    if less 0xffffffff length then 0xffffffff else length

unfoldable pub add_entry : Entry → Physical → Outcome Physical
unfolding add_free_memory
add_entry e s =
    if not (e.type == 1) || (e.length == 0) || less 0xffffffff e.base
    then ok s
    else add_free_memory (e.base % u32_mod) (limited e % u32_mod) s

unfoldable pub add_entries : List Entry → Physical → Outcome Physical
unfolding add_entry
add_entries [] s = ok s
add_entries (e ∷ es) s = add_entry e s >>= add_entries es

unfoldable pub reserve_standard : ℕ → ℕ → Physical → Outcome Physical
unfolding reserve_memory
reserve_standard kernel_beg kernel_end s = do
  a ← reserve_memory 0x80000 (128 * 1024) s
  b ← reserve_memory 0xA0000 (128 * 1024) a
  c ← reserve_memory 0xC0000 (32 * 1024) b
  d ← reserve_memory 0xC8000 (160 * 1024) c
  e ← reserve_memory 0xF0000 (64 * 1024) d
  reserve_memory (kernel_beg % 2 ^ 31) (sub32 kernel_end kernel_beg) e

unfoldable pub create_memory_map : ℕ → ℕ → List Entry → Physical → Outcome Physical
unfolding add_entries reserve_standard
create_memory_map kernel_beg kernel_end es s =
    add_entries es s >>= reserve_standard kernel_beg kernel_end
