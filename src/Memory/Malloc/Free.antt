-- ===== src/Memory/Malloc/Free.antt =====
-- `Free` of the heap, on each kind of address, and the leak when the free list is empty.
use baby_osv.Base.{
  ℕ, ◌+◌, ◌≡◌, refl, ap, ◌∙◌, ◌≢◌, inl, inr, none, some, List, [], ◌∷◌, arith, ltb, ◌==◌, sub32,
  subst, Bool-cases,
}
use baby_osv.Base.Outcome.{ok, fault}
use baby_osv.Memory.Malloc.{
  Block, Heap, header_size, free, release, find, drop_block, insert, malloc_merge,
}
use baby_osv.Memory.Malloc.Cover.{
  holds, cover, InMemory, AllIn, merge_from-cover, insert_behind-cover, insert_behind-AllIn,
}

pub cover-drop_block :
    (x a : ℕ) (bs : List Block) {b : Block}
    → find a bs ≡ some b
    → cover x (drop_block a bs) + holds x b ≡ cover x bs
unfolding find drop_block
cover-drop_block x a [] e = cc
cover-drop_block x a (c ∷ cs) {b} e = elim (Bool-cases (c.address == a)) [
  | inl hit ↦ let same : c ≡ b = ground arith in rw hit (rw same (omega arith))
  | inr miss ↦ rw miss (omega (arith, cover-drop_block x a cs {b = b} (ground arith)))
]

pub find-address : (a : ℕ) (bs : List Block) {b : Block} → find a bs ≡ some b → b.address ≡ a
unfolding find
find-address a [] e = cc
find-address a (c ∷ cs) {b} e = elim (Bool-cases (c.address == a)) [
  | inl hit ↦ let same : c ≡ b = ground arith in ground arith
  | inr miss ↦ find-address a cs {b = b} (ground arith)
]

pub find-InMemory :
    (a : ℕ) (bs : List Block) {b : Block} → AllIn bs → find a bs ≡ some b → InMemory b
unfolding find
find-InMemory a [] i e = cc
find-InMemory a (c ∷ cs) {b} i e = elim (Bool-cases (c.address == a)) [
  | inl hit ↦ let same : c ≡ b = ground arith in subst InMemory same i.0
  | inr miss ↦ find-InMemory a cs i.1 (ground arith)
]

drop_block-AllIn : (a : ℕ) (bs : List Block) → AllIn bs → AllIn (drop_block a bs)
unfolding drop_block
drop_block-AllIn a [] i = tt
drop_block-AllIn a (c ∷ cs) i = elim (Bool-cases (c.address == a)) [
  | inl hit ↦ rw hit i.1
  | inr miss ↦ rw miss (i.0, drop_block-AllIn a cs i.1)
]

-- A block that is put into a list that is not empty covers its bytes there.
pub insert-cover :
    (b : Block) (bs : List Block)
    → InMemory b
    → AllIn bs
    → bs ≢ []
    → ((x : ℕ) → cover x (insert b bs) ≡ holds x b + cover x bs) × AllIn (insert b bs)
unfolding insert
insert-cover b [] i k ne = absurd (ne refl)
insert-cover b (p ∷ ps) i k ne = elim (Bool-cases (ltb b.address p.address)) [
  | inl e ↦ rw e (λ x. refl, (i, k))
  | inr e ↦
      rw e (λ x. omega (arith, insert_behind-cover x b p ps), insert_behind-AllIn b p ps i k.0 k.1)
]

malloc_merge-cover :
    (bs : List Block)
    → AllIn bs
    → (cs : List Block) × (malloc_merge bs ≡ ok cs) × ((x : ℕ) → cover x cs ≡ cover x bs) × AllIn cs
unfolding malloc_merge
malloc_merge-cover [] i = ([], refl, λ x. refl, tt)
malloc_merge-cover (b ∷ bs) i = merge_from-cover b bs i.0 i.1

pub free-release :
    (ptr : ℕ) (h : Heap) {b : Block}
    → find (sub32 ptr header_size) h.used ≡ some b
    → free ptr h ≡ release b h
unfolding free
free-release ptr h e = rw (e, free)

pub release-ok :
    (b : Block) (h : Heap) {bs : List Block}
    → malloc_merge (insert b h.free) ≡ ok bs
    → release b h ≡ ok (record h { free = bs; used = drop_block b.address h.used })
unfolding release
release-ok b h e = rw (e, release)

-- What a call of `Free` does: the block in front of the address leaves the used blocks, and its bytes
-- and those that were free are free.
pub record Freed (h : Heap) (b : Block) (h' : Heap) : Type 0 where
  pub bytes_free : (x : ℕ) → cover x h'.free ≡ cover x h.free + holds x b
  pub bytes_used : (x : ℕ) → cover x h'.used + holds x b ≡ cover x h.used
  pub free_inside : AllIn h'.free
  pub used_inside : AllIn h'.used
  pub same_supply : h'.supply ≡ h.supply

-- If all blocks lie in memory, some block is free, and the address is that of a used block, `Free`
-- succeeds and moves all bytes of that block, and no other byte, from the used to the free blocks.
pub free_lem :
    (ptr : ℕ) (h : Heap) (b : Block)
    → AllIn h.free
    → AllIn h.used
    → h.free ≢ []
    → find (sub32 ptr header_size) h.used ≡ some b
    → (h' : Heap) × (free ptr h ≡ ok h') × Freed h b h'
free_lem ptr h b i k ne e =
    let at = find-address (sub32 ptr header_size) h.used e in
    let (put, put_in) = insert-cover b h.free (find-InMemory _ h.used k e) i ne in
    let (bs, merged, same, inside) = malloc_merge-cover (insert b h.free) put_in in
    (
      _,
      free-release ptr h e ∙ release-ok b h merged,
      record {
        bytes_free = λ x. omega (arith, same x, put x);
        bytes_used = λ x. cover-drop_block x b.address h.used (ap (λ a. find a h.used) at ∙ e);
        free_inside = inside;
        used_inside = drop_block-AllIn b.address h.used k;
        same_supply = refl;
      },
    )

merge-insert_nil : (b : Block) → malloc_merge (insert b []) ≡ ok []
unfolding malloc_merge insert
merge-insert_nil b = refl

-- If no block is free, `Free` of a used block makes it neither free nor used: its bytes are lost. The
-- used blocks stay in memory if they all were.
pub free_leaks :
    (ptr : ℕ) (h : Heap) (b : Block)
    → h.free ≡ []
    → AllIn h.used
    → find (sub32 ptr header_size) h.used ≡ some b
    → (h' : Heap) × (free ptr h ≡ ok h')
      × (h'.free ≡ [])
      × ((x : ℕ) → cover x h'.used + holds x b ≡ cover x h.used)
      × AllIn h'.used
free_leaks ptr h b empty k e =
    let at = find-address (sub32 ptr header_size) h.used e in
    (
      _,
      free-release ptr h e ∙ release-ok b h {bs = []} (rw empty (merge-insert_nil b)),
      refl,
      λ x. cover-drop_block x b.address h.used (ap (λ a. find a h.used) at ∙ e),
      drop_block-AllIn b.address h.used k,
    )

-- `Free` of a block that is free already changes nothing; `Free` of an address behind no block reads
-- memory that is no header.
pub free_twice :
    (ptr : ℕ) (h : Heap)
    → find (sub32 ptr header_size) h.used ≡ none
    → ((b : Block) → find (sub32 ptr header_size) h.free ≡ some b → free ptr h ≡ ok h)
      × (find (sub32 ptr header_size) h.free ≡ none → free ptr h ≡ fault)
unfolding free
free_twice ptr h e = (λ b found. rw (e, free, found), λ missing. rw (e, free, missing))
