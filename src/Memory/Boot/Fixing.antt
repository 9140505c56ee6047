-- ===== src/Memory/Boot/Fixing.antt =====
-- What `FixEntries` does to an entry of free memory.
use native.Mathlib.Decide.{dec_lt}
use baby_osv.Base.{
  ℕ, ◌+◌, ◌-◌, ◌%◌, ◌^◌, ◌≤◌, ◌<◌, ◌≡◌, refl, ap, ap₂, ◌∙◌, sym, subst, inl, inr, Bool, true, false,
  not, ◌||◌, ltb, ◌==◌, if◌then◌else◌, u32_mod, arith, Bool-cases,
}
use baby_osv.Memory.Map.{Entry}
use baby_osv.Memory.Physical.{Physical, add_free_memory}
use baby_osv.Memory.Boot.{
  less, add64, sub64, page_start, cut_off, align, align_unless, fix_entry, limited, add_entry,
}

-- Whole pages between `from` and `to`, all but less than a page at either end.
pub record Pages (from to : ℕ) (e : Entry) : Type 0 where
  pub base_whole : e.base % 4096 ≡ 0
  pub length_whole : e.length % 4096 ≡ 0
  pub starts : from ≤ e.base
  pub ends : e.base + e.length ≤ to
  pub most_below : e.base < from + 4096
  pub most_above : to < e.base + e.length + 4096

less_small : (a b : ℕ) → a < 2 ^ 40 → b < 2 ^ 40 → less a b ≡ ltb a b
less_small a b ha hb = elim (dec_lt a b) [
  | yes h ↦ ground (arith, h, ha, hb)
  | no h ↦ ground (arith, h, ha, hb)
]

align-Pages :
    (e : Entry)
    → e.type ≡ 1
    → e.base < 2 ^ 32
    → e.length < 2 ^ 32
    → page_start (e.base + 0xfff) ≤ e.base + e.length
    → Pages e.base (e.base + e.length) (align e)
align-Pages e usable small short room =
    elim (Bool-cases (not (e.base % 4096 == 0) || not (e.length % 4096 == 0))) [
      | inl h ↦
          let one : (e.type == 1) ≡ true = ground (arith, usable) in
          rw (h, one)
            (record {
              base_whole = omega arith;
              length_whole = omega arith;
              starts = omega (arith, small);
              ends = omega (arith, small, short, room);
              most_below = omega (arith, small);
              most_above = omega (arith, small, short, room);
            })
      | inr h ↦ rw h (record {
        base_whole = ground (arith, h);
        length_whole = ground (arith, h);
        starts = omega arith;
        ends = omega arith;
        most_below = omega arith;
        most_above = omega arith;
      })
    ]

-- Where an entry begins once what lies below the kernel's end is cut off.
abbrev pub start_of : ℕ → Entry → ℕ
start_of kernel_end e = if ltb e.base kernel_end then kernel_end else e.base

cut_off-Pages :
    (end : ℕ) (e : Entry)
    → e.type ≡ 1
    → end < 2 ^ 31
    → e.base < end
    → e.length < 2 ^ 32
    → page_start (end + 0xfff) ≤ e.base + e.length
    → Pages end (e.base + e.length) (align_unless (cut_off end (end - e.base) e))
cut_off-Pages end e usable low below short room =
    let keeps : less e.length (end - e.base) ≡ false =
      less_small e.length (end - e.base) (omega (arith, short)) (omega (arith, low))
      ∙ ground (arith, room, below) in
    let cut : Entry = record e { base = end; length = e.length - (end - e.base) } in
    let left : sub64 e.length (end - e.base) ≡ e.length - (end - e.base) =
      omega (arith, room, below, short, low) in
    rw (keeps, left)
      (subst (λ n. Pages end n (align cut)) (omega (arith, room, below))
        (align-Pages cut usable (omega (arith, low)) (omega (arith, short))
          (omega (arith, room, below))))

-- `FixEntries` makes of an entry of free memory below 4 GB, cut off at the kernel's end, the whole pages
-- in it: they lie inside the entry and less than a page is lost at either end, if the entry reaches to the
-- first border of a page.
pub fix_entry-Pages :
    (kernel_end : ℕ) (e : Entry)
    → e.type ≡ 1
    → e.base < 2 ^ 32
    → e.length < 2 ^ 32
    → page_start (start_of (kernel_end % 2 ^ 31) e + 0xfff) ≤ e.base + e.length
    → Pages (start_of (kernel_end % 2 ^ 31) e) (e.base + e.length) (fix_entry kernel_end e)
unfolding fix_entry
fix_entry-Pages kernel_end e usable small short room =
    let end = kernel_end % 2 ^ 31 in
    let low : end < 2 ^ 31 = omega arith in
    let same = less_small e.base end (omega (arith, small)) (omega arith) in
    elim (dec_lt e.base end) [
      | yes h ↦
          let test : ltb e.base end ≡ true = ground (arith, h) in
          let diff : sub64 end e.base % u32_mod ≡ end - e.base = omega (arith, h, low) in
          let reaches : page_start (end + 0xfff) ≤ e.base + e.length =
            subst
              (λ (b : Bool). page_start ((if b then end else e.base) + 0xfff) ≤ e.base + e.length)
              test room in
          subst
            (λ (b : Bool).
              Pages (if b then end else e.base) (e.base + e.length) (fix_entry kernel_end e))
            (sym test) (rw (same ∙ test, diff) (cut_off-Pages end e usable low h short reaches))
      | no h ↦
          let test : ltb e.base end ≡ false = ground (arith, h) in
          let reaches : page_start (e.base + 0xfff) ≤ e.base + e.length =
            subst
              (λ (b : Bool). page_start ((if b then end else e.base) + 0xfff) ≤ e.base + e.length)
              test room in
          subst
            (λ (b : Bool).
              Pages (if b then end else e.base) (e.base + e.length) (fix_entry kernel_end e))
            (sym test) (rw (same ∙ test) (align-Pages e usable small short reaches))
    ]

shrink_short :
    (e : Entry)
    → e.type ≡ 1
    → e.base + 0xfff < 2 ^ 32
    → e.base + e.length < page_start (e.base + 0xfff)
    → align e ≡ record e { base = page_start (e.base + 0xfff); length = 2 ^ 64 - 4096 }
shrink_short e usable small short =
    let one : (e.type == 1) ≡ true = ground (arith, usable) in
    let moved : (not (e.base % 4096 == 0) || not (e.length % 4096 == 0)) ≡ true =
      ground (arith, short) in
    let base : page_start (add64 e.base 0xfff) ≡ page_start (e.base + 0xfff) =
      omega (arith, small) in
    let length : page_start
          (sub64 e.length (sub64 (page_start (e.base + 0xfff)) (e.base % u32_mod) % u32_mod))
        ≡ 2 ^ 64 - 4096 =
      omega (arith, small, short) in
    rw (moved, one, base, length) refl

limited_short :
    (f : Entry)
    → f.length ≡ 2 ^ 64 - 4096
    → less 0xffffffff (add64 f.base f.length) ≡ false
    → limited f % u32_mod ≡ 2 ^ 32 - 4096
limited_short f long below =
    let negative : less 0xffffffff f.length ≡ false = ground (arith, long) in
    rw (below, negative) (omega (arith, long))

add_entry_given :
    (f : Entry) (s : Physical)
    → (f.type == 1) ≡ true
    → (f.length == 0) ≡ false
    → less 0xffffffff f.base ≡ false
    → add_entry f s ≡ add_free_memory (f.base % u32_mod) (limited f % u32_mod) s
unfolding add_entry
add_entry_given f s usable some_bytes near = rw (usable, some_bytes, near) refl

fix_entry_short :
    (kernel_end : ℕ) (e : Entry)
    → e.type ≡ 1
    → kernel_end % 2 ^ 31 ≤ e.base
    → e.base + 0xfff < 2 ^ 32
    → e.base + e.length < page_start (e.base + 0xfff)
    → fix_entry kernel_end e
      ≡ record e { base = page_start (e.base + 0xfff); length = 2 ^ 64 - 4096 }
unfolding fix_entry
fix_entry_short kernel_end e usable behind small short =
    let uncut : less e.base (kernel_end % 2 ^ 31) ≡ false =
      less_small e.base (kernel_end % 2 ^ 31) (omega (arith, small)) (omega arith)
      ∙ ground (arith, behind) in
    rw uncut (shrink_short e usable small short)

-- Where an entry of free memory behind the kernel's end does not reach to the first border of a page,
-- `FixEntries` makes its length negative, and `CreateMemoryMap` then gives all but one page of 4 GB to
-- `AddFreeMemory`, from that border on.
pub add_entry_short :
    (kernel_end : ℕ) (e : Entry) (s : Physical)
    → e.type ≡ 1
    → kernel_end % 2 ^ 31 ≤ e.base
    → e.base + 0xfff < 2 ^ 32
    → e.base + e.length < page_start (e.base + 0xfff)
    → add_entry (fix_entry kernel_end e) s
      ≡ add_free_memory (page_start (e.base + 0xfff)) (2 ^ 32 - 4096) s
add_entry_short kernel_end e s usable behind small short =
    let start = page_start (e.base + 0xfff) in
    let f : Entry = record e { base = start; length = 2 ^ 64 - 4096 } in
    let near : less 0xffffffff start ≡ false = ground (arith, small) in
    let below : less 0xffffffff (add64 start (2 ^ 64 - 4096)) ≡ false =
      ground (arith, small, short) in
    let word : start % u32_mod ≡ start = omega (arith, small) in
    ap (λ x. add_entry x s) (fix_entry_short kernel_end e usable behind small short)
    ∙ add_entry_given f s (ground (arith, usable)) (ground arith) near
    ∙ ap₂ (λ a n. add_free_memory a n s) word (limited_short f refl below)
