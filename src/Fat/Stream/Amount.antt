-- ===== src/Fat/Stream/Amount.antt =====
-- How much `FileRead` reads.
use baby_osv.Base.{
  ℕ, zero, suc, ◌+◌, ◌-◌, ◌%◌, ◌≤◌, ◌<◌, ◌≡◌, refl, ap, ◌∙◌, sym, subst, ◌≢◌, inl, inr, true, false,
  Option, none, some, List, [], ◌++◌, ltb, leb, ◌==◌, length, min, u32_mod, arith, Bool-cases,
  length-append,
}
use baby_osv.Base.Outcome.{Outcome, ok, halted, fault}
use baby_osv.Fat.Table.{get_next_cluster}
use baby_osv.Fat.Volume.{Info}
use baby_osv.Fat.Directory.{buffer_of, buffer_size_of}
use baby_osv.Fat.File.{File}
use baby_osv.Fat.Stream.{
  Reader, end_of_file, object_at, copy_out, copied, proceed, behind, read_parts, read_from,
  read_with, file_read,
}
use baby_osv.Fat.Stream.Moves.{
  HasObject, Moved, Amount, copy_out-Copied, copied-Amount, Reads, Parts, Moved-trans,
}

-- The object is there, and the file stands where it did; or it is at its end.
abbrev Placed : File → Outcome (Option (Info × File)) → Type 0
Placed f halted = ⊥
Placed f fault = ⊥
Placed f (ok none) = Unit {0}
Placed f (ok (some (j, g))) =
    (g.cache ≢ none) × (g.total_offset ≡ f.total_offset) × (g.total_size ≡ f.total_size)

object_at-Placed :
    (o : Option ℕ) (i : Info) (f : File) → o ≡ f.cache → HasObject f → Placed f (object_at o i f)
object_at-Placed none i f same has = elim has [
  | inl h ↦ absurd (h (sym same))
  | inr h ↦
      let start : ltb 0 f.total_offset ≡ false = ground (arith, h) in
      rw (Placed, start) ((λ e. cc), refl, refl)
]
object_at-Placed (some c) i f same has =
    let next = get_next_cluster i.type i.fat c in
    elim (Bool-cases (f.total_offset % buffer_size_of i c == 0)) [
      | inr e ↦ rw (Placed, e) ((λ n. cc), refl, refl)
      | inl e ↦ elim (Bool-cases (ltb 0 f.total_offset)) [
        | inr g ↦ rw (Placed, e, g) ((λ n. cc), refl, refl)
        | inl g ↦ elim (Bool-cases (next == 0)) [
          | inl z ↦ rw (Placed, e, g, z) tt
          | inr z ↦ rw (Placed, e, g, z) ((λ n. cc), refl, refl)
        ]
      ]
    ]

module _ (call : Reader) (in_buffer : ℕ)
    (reads : (n : ℕ) (j : Info) (g : File)
      → n ≤ in_buffer
      → g.total_size < u32_mod
      → HasObject g
      → Reads n g (call n j g)) where
  read_parts-Parts :
      (rounds left : ℕ) (bytes : List ℕ) (i : Info) (f : File)
      → left ≤ rounds
      → 0 < length bytes + left
      → f.total_size < u32_mod
      → HasObject f
      → Parts bytes left f (read_parts rounds call in_buffer bytes left i f)
  unfolding read_parts
  read_parts-Parts rounds zero bytes i f enough some_bytes small has = record {
    result = record { success = true; bytes = bytes; info = i; file = f };
    is_result = refl;
    more = 0;
    count = omega arith;
    short = omega arith;
    moved = record { offset = omega arith; same_size = refl; within = λ h. h; has_object = has };
    success = sym (ground (arith, some_bytes));
  }
  read_parts-Parts zero (suc left) bytes i f enough some_bytes small has =
      absurd (omega (arith, enough))
  read_parts-Parts (suc rounds) (suc left) bytes i f enough some_bytes small has =
      let n = min in_buffer (suc left) in
      let again = λ (more : List ℕ) (rest : ℕ) (j : Info) (g : File).
        read_parts rounds call in_buffer more rest j g in
      let (r, is_read, amount) = reads n i f (omega arith) small has in
      let total : length (bytes ++ r.bytes) ≡ length bytes + length r.bytes =
        length-append bytes r.bytes in
      elim (Bool-cases r.success) [
        | inl e ↦
            let read_some : 0 < length r.bytes = ground (arith, e, amount.success) in
            let rest =
              read_parts-Parts rounds (suc left - length r.bytes) (bytes ++ r.bytes) r.info r.file
                (omega (arith, enough, read_some)) (omega (arith, total, read_some))
                (omega (arith, amount.moved.same_size, small)) amount.moved.has_object in
            record {
              result = rest.result;
              is_result =
                  ap (λ x. behind bytes (suc left) x again) is_read
                  ∙ ap (λ b. proceed b bytes (suc left) r again) e
                  ∙ rest.is_result;
              more = length r.bytes + rest.more;
              count = omega (arith, rest.count, total);
              short = omega (arith, rest.short, amount.short);
              moved = Moved-trans amount.moved rest.moved;
              success = rest.success;
            }
        | inr e ↦ record {
          result = record r {
            success = ltb 0 (length (bytes ++ r.bytes));
            bytes = bytes ++ r.bytes;
          };
          is_result =
              ap (λ x. behind bytes (suc left) x again) is_read
              ∙ ap (λ b. proceed b bytes (suc left) r again) e;
          more = length r.bytes;
          count = total;
          short = omega (arith, amount.short);
          moved = amount.moved;
          success = refl;
        }
      ]

read_from-Reads :
    (call : Reader) (size : ℕ) (o : Option ℕ) (i : Info) (f : File)
    → o ≡ f.cache
    → o ≢ none
    → f.total_size < u32_mod
    → ((n : ℕ) (j : Info) (g : File)
        → n < size
        → g.total_size < u32_mod
        → HasObject g
        → Reads n g (call n j g))
    → Reads size f (read_from call size o i f)
read_from-Reads call size none i f same has small reads = absurd (has refl)
read_from-Reads call size (some c) i f same has small reads =
    let in_buffer = buffer_size_of i c - f.total_offset % buffer_size_of i c in
    let has_object = λ (e : f.cache ≡ none). has (same ∙ e) in
    elim (Bool-cases (ltb in_buffer size)) [
      | inl e ↦
          let less : in_buffer < size = ground (arith, e) in
          let parts =
            read_parts-Parts call in_buffer (λ n j g le. reads n j g (omega (arith, le, less))) size
              size [] i f (omega arith) (omega (arith, less)) small (inl has_object) in
          rw e (
            parts.result,
            parts.is_result,
            record {
              short = omega (arith, parts.count, parts.short);
              moved =
                  subst (λ n. Moved n f parts.result.file) (omega (arith, parts.count)) parts.moved;
              success = parts.success;
            },
          )
      | inr e ↦
          let out = copy_out size (buffer_of i c) (f.total_offset % buffer_size_of i c) f in
          rw e (
            copied i out,
            refl,
            copied-Amount size i f out has_object (
                copy_out-Copied size (buffer_of i c) (f.total_offset % buffer_size_of i c) f small),
          )
    ]

ended-Amount : (size : ℕ) (i : Info) (f : File) → HasObject f → Amount size f (end_of_file i f)
ended-Amount size i f has = record {
  short = omega arith;
  moved = record { offset = omega arith; same_size = refl; within = λ h. h; has_object = has };
  success = refl;
}

read_with-Reads :
    (call : Reader) (size : ℕ) (i : Info) (f : File) (x : Outcome (Option (Info × File)))
    → Placed f x
    → HasObject f
    → f.total_size < u32_mod
    → ((n : ℕ) (j : Info) (g : File)
        → n < size
        → g.total_size < u32_mod
        → HasObject g
        → Reads n g (call n j g))
    → Reads size f (read_with call size i f x)
read_with-Reads call size i f halted placed has small reads = absurd placed
read_with-Reads call size i f fault placed has small reads = absurd placed
read_with-Reads call size i f (ok none) placed has small reads =
    (end_of_file i f, refl, ended-Amount size i f has)
read_with-Reads call size i f (ok (some (j, g))) (some_object, same_offset, same_size) has small
      reads =
    let (r, is_read, amount) =
      read_from-Reads call size g.cache j g refl some_object (omega (arith, same_size, small))
        reads in
    (
      r,
      is_read,
      record {
        short = amount.short;
        moved = record {
          offset = omega (arith, amount.moved.offset, same_offset);
          same_size = amount.moved.same_size ∙ same_size;
          within = λ h.
              omega
                (arith, amount.moved.within (omega (arith, h, same_offset, same_size)), same_size);
          has_object = amount.moved.has_object;
        };
        success = amount.success;
      },
    )

-- `FileRead` of fewer than `fuel` bytes from a file that has an object or stands at its start always
-- returns. It reads at most as many bytes as it is asked for, moves the file's offset forward by as many
-- and not past the file's size, and returns `Success` where it reads a byte and `EndOfFile` where it reads
-- none.
pub file_read-Reads :
    (fuel size : ℕ) (i : Info) (f : File)
    → size < fuel
    → f.total_size < u32_mod
    → HasObject f
    → Reads size f (file_read fuel size i f)
unfolding file_read
file_read-Reads zero size i f enough small has = absurd (omega arith)
file_read-Reads (suc fuel) size i f enough small has =
    elim (Bool-cases (leb f.total_size f.total_offset)) [
      | inl e ↦ rw (file_read, e) (end_of_file i f, refl, ended-Amount size i f has)
      | inr e ↦
          rw (file_read, e)
            (read_with-Reads (λ n j g. file_read fuel n j g) size i f (object_at f.cache i f)
              (object_at-Placed f.cache i f refl has) has small
              (λ n j g less. file_read-Reads fuel n j g (omega (arith, less, enough))))
    ]
