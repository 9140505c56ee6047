-- ===== src/Fat/Stream/Moves.antt =====
-- What a read moves: the copy out of the buffer, and several reads in a row.
use baby_osv.Base.{
  ℕ, zero, suc, ◌+◌, ◌≤◌, ◌<◌, ◌≡◌, refl, ◌∙◌, sym, ◌≢◌, ◌⊎◌, inl, inr, Option, none, some, List,
  [], ◌∷◌, ltb, leb, length, add32, u32_mod, arith, Bool-cases,
}
use baby_osv.Base.Outcome.{Outcome, ok}
use baby_osv.Fat.Volume.{Info}
use baby_osv.Fat.File.{File}
use baby_osv.Fat.Stream.{Read, copy_out, copied}

-- A file has an object, or stands at its start.
abbrev pub HasObject : File → Type 0
HasObject f = (f.cache ≢ none) ⊎ (f.total_offset ≡ 0)

-- The file has moved forward by `n` bytes, not past its end if it was not.
pub record Moved (n : ℕ) (f g : File) : Type 0 where
  pub offset : g.total_offset ≡ f.total_offset + n
  pub same_size : g.total_size ≡ f.total_size
  pub within : f.total_offset ≤ f.total_size → g.total_offset ≤ f.total_size
  pub has_object : HasObject g

-- A read of at most `size` bytes moves the file by as many as it reads, and its status is `Success` where
-- it reads one.
pub record Amount (size : ℕ) (f : File) (r : Read) : Type 0 where
  pub short : length r.bytes ≤ size
  pub moved : Moved (length r.bytes) f r.file
  pub success : r.success ≡ ltb 0 (length r.bytes)

pub record Copied (count : ℕ) (f : File) (x : List ℕ × File) : Type 0 where
  pub short : length x.0 ≤ count
  pub offset : x.1.total_offset ≡ f.total_offset + length x.0
  pub same_size : x.1.total_size ≡ f.total_size
  pub same_cache : x.1.cache ≡ f.cache
  pub within : f.total_offset ≤ f.total_size → x.1.total_offset ≤ f.total_size

pub copy_out-Copied :
    (count : ℕ) (buffer : ℕ → ℕ) (o : ℕ) (f : File)
    → f.total_size < u32_mod
    → Copied count f (copy_out count buffer o f)
unfolding copy_out
copy_out-Copied zero buffer o f small = record {
  short = omega arith;
  offset = omega arith;
  same_size = refl;
  same_cache = refl;
  within = λ h. h;
}
copy_out-Copied (suc count) buffer o f small =
    let g : File = record f { total_offset = add32 f.total_offset 1 } in
    let rest = copy_out-Copied count buffer (o + 1) g small in
    elim (Bool-cases (leb f.total_size f.total_offset)) [
      | inl e ↦ rw e (record {
        short = omega arith;
        offset = omega arith;
        same_size = refl;
        same_cache = refl;
        within = λ h. h;
      })
      | inr e ↦
          let more : f.total_offset < f.total_size = ground (arith, e) in
          rw e (record {
            short = omega (arith, rest.short);
            offset = omega (arith, rest.offset, more, small);
            same_size = rest.same_size;
            same_cache = rest.same_cache;
            within = λ h. rest.within (omega (arith, more, small));
          })
    ]

pub copied-Amount :
    (count : ℕ) (i : Info) (f : File) (x : List ℕ × File)
    → f.cache ≢ none
    → Copied count f x
    → Amount count f (copied i x)
copied-Amount count i f ([], g) has c = record {
  short = c.short;
  moved = record {
    offset = c.offset;
    same_size = c.same_size;
    within = c.within;
    has_object = inl (λ e. has (sym c.same_cache ∙ e));
  };
  success = refl;
}
copied-Amount count i f (b ∷ bs, g) has c = record {
  short = c.short;
  moved = record {
    offset = c.offset;
    same_size = c.same_size;
    within = c.within;
    has_object = inl (λ e. has (sym c.same_cache ∙ e));
  };
  success = sym (ground arith);
}

-- The result of a read.
abbrev pub Reads : ℕ → File → Option (Outcome Read) → Type 0
Reads size f x = (r : Read) × (x ≡ some (ok r)) × Amount size f r

-- What the loop over the calls adds to the bytes that are read.
pub record Parts (bytes : List ℕ) (left : ℕ) (f : File) (x : Option (Outcome Read)) : Type 0 where
  pub result : Read
  pub is_result : x ≡ some (ok result)
  pub more : ℕ
  pub count : length result.bytes ≡ length bytes + more
  pub short : more ≤ left
  pub moved : Moved more f result.file
  pub success : result.success ≡ ltb 0 (length result.bytes)

pub Moved-trans : {m n : ℕ} {f g h : File} → Moved m f g → Moved n g h → Moved (m + n) f h
Moved-trans {f} {g} a b = record {
  offset = omega (arith, a.offset, b.offset);
  same_size = b.same_size ∙ a.same_size;
  within = λ l. omega (arith, b.within (omega (arith, a.within l, a.same_size)), a.same_size);
  has_object = b.has_object;
}
