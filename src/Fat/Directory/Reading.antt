-- ===== src/Fat/Directory/Reading.antt =====
-- Reading the root directory entry by entry.
use baby_osv.Base.{
  ℕ, zero, suc, ◌+◌, ◌*◌, ◌<◌, ◌≡◌, refl, ap, ◌∙◌, sym, inl, inr, Bool, true, false, Option, none,
  some, leb, if◌then◌else◌, arith, Bool-cases, not, ◌&&◌, ◌||◌, ◌==◌,
}
use baby_osv.Fat.Volume.{Cache, Info, find_cache}
use baby_osv.Fat.Directory.{
  Directory, DirEntry, buffer_of, buffer_size_of, buffer_in, entry_at, if_valid, settle,
  directory_read_internal, directory_read,
}

-- The root directory, standing on the entry at an offset.
abbrev pub root_at : ℕ → Directory
root_at o = record { root_cluster = 0; buffer_offset = o; cache = some 0 }

abbrev pub root_entry : (ℕ → ℕ) → ℕ → DirEntry
root_entry buffer o = entry_at (λ k. buffer (o + k)) 0

-- What the first byte of an entry tells: 0 and a space stand for a free entry, and 0xe5 for a removed one.
abbrev pub in_use : ℕ → Bool
in_use first = not (first == 0) && (not (first == 0x20) && not (first == 0xe5))

not_any : (a b c : Bool) → not (a || b || c) ≡ not a && (not b && not c)
not_any a b c = ground arith

is_valid-in_use : (buffer : ℕ → ℕ) (o : ℕ) → (root_entry buffer o).is_valid ≡ in_use (buffer o)
unfolding entry_at
is_valid-in_use buffer o =
    not_any (buffer (o + 0) == 0) (buffer (o + 0) == 0x20) (buffer (o + 0) == 0xe5)
    ∙ ap (λ n. in_use (buffer n)) (omega arith)

-- The offset of the first entry in use behind `o` among the `left` entries that follow.
abbrev pub next_in_use : (ℕ → ℕ) → ℕ → ℕ → Option ℕ
next_in_use buffer zero o = none
next_in_use buffer (suc left) o =
    let later = next_in_use buffer left (o + 32) in
    if in_use (buffer (o + 32)) then some (o + 32) else later

-- The directory has come to the entry, or to its end.
abbrev pub reached : Info → (ℕ → ℕ) → Option ℕ → Option (DirEntry × Info × Directory)
reached i buffer none = none
reached i buffer (some o) = some (root_entry buffer o, i, root_at o)

module _ (i : Info) {w : Cache} (e : find_cache 0 i.cache_objects ≡ some w) where
  at_end : (o : ℕ) → o + 32 ≡ w.buffer_size → directory_read_internal i (root_at o) ≡ none
  unfolding directory_read_internal buffer_size_of
  at_end o end =
      let test : leb w.buffer_size (o + 32) ≡ true = ground (arith, end) in rw (e, test) refl

  step_on :
      (o : ℕ)
      → o + 32 < w.buffer_size
      → directory_read_internal i (root_at o)
        ≡ some (root_entry w.buffer (o + 32), i, root_at (o + 32))
  unfolding directory_read_internal buffer_size_of buffer_of
  step_on o more =
      let test : leb w.buffer_size (o + 32) ≡ false = ground (arith, more) in
      rw (e, test)
        (ap (λ x. some (entry_at (λ k. buffer_in x (o + 32 + k)) 0, i, root_at (o + 32))) e)

  -- `DirectoryRead` on the root directory, standing on an entry that `left` more entries follow in the
  -- buffer, moves to the first entry behind it that is in use and returns it, skipping free ones (the first
  -- byte is 0 or a space) and removed ones (it is 0xe5), or returns `EndOfFile` if none of them is in use;
  -- `left + 1` rounds of its loop are enough.
  pub directory_read-root :
      (left fuel o : ℕ)
      → o + 32 * left + 32 ≡ w.buffer_size
      → left < fuel
      → directory_read fuel i (root_at o) ≡ some (reached i w.buffer (next_in_use w.buffer left o))
  unfolding directory_read
  directory_read-root left zero o fits enough = absurd (omega arith)
  directory_read-root zero (suc fuel) o fits enough =
      ap (λ x. settle x (λ j d. directory_read fuel j d)) (at_end o (omega arith))
  directory_read-root (suc left) (suc fuel) o fits enough =
      let rest = directory_read-root left fuel (o + 32) (omega arith) (omega arith) in
      let entry = root_entry w.buffer (o + 32) in
      let round =
        λ (b : Bool). if_valid b (entry, i, root_at (o + 32)) (λ j d. directory_read fuel j d) in
      let valid : entry.is_valid ≡ in_use (w.buffer (o + 32)) = is_valid-in_use w.buffer (o + 32) in
      let goal = λ (b : Bool).
        some
          (reached i w.buffer (if b then some (o + 32) else next_in_use w.buffer left (o + 32))) in
      ap (λ x. settle x (λ j d. directory_read fuel j d)) (step_on o (omega arith))
      ∙ elim (Bool-cases (in_use (w.buffer (o + 32)))) [
        | inl v ↦ ap round (valid ∙ v) ∙ sym (ap goal v)
        | inr v ↦ ap round (valid ∙ v) ∙ rest ∙ sym (ap goal v)
      ]
