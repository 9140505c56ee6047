-- ===== src/Memory/Malloc/Order.antt =====
-- A free list in the order of addresses stays so, and no two blocks of it touch after `Free`.
use native.Mathlib.Decide.{ℕ_discrete}
use baby_osv.Base.{
  ℕ, ◌+◌, ◌≤◌, ◌<◌, ◌≡◌, refl, ap, ◌∙◌, sym, ◌≢◌, ◌⊎◌, inl, inr, List, [], ◌∷◌, arith, ltb, sub32,
  subst, Bool-cases, some,
}
use baby_osv.Base.Outcome.{ok}
use baby_osv.Memory.Malloc.{
  Block, Heap, header_size, insert, insert_behind, merge_from, malloc_merge, join, end_of, free,
  find,
}
use baby_osv.Memory.Malloc.Cover.{InMemory, AllIn, merge_from-cover, holds-join}
use baby_osv.Memory.Malloc.Free.{find-InMemory, free-release, release-ok, insert-cover}

-- The first address behind a block.
abbrev pub finish : Block → ℕ
finish b = b.address + header_size + b.length

-- The blocks follow one another from `lo` on; in the second predicate none touches the one before.
abbrev pub OrderedFrom : ℕ → List Block → Type 0
OrderedFrom lo [] = Unit {0}
OrderedFrom lo (b ∷ bs) = (lo ≤ b.address) × OrderedFrom (finish b) bs

abbrev pub SpacedFrom : ℕ → List Block → Type 0
SpacedFrom lo [] = Unit {0}
SpacedFrom lo (b ∷ bs) = (lo < b.address) × SpacedFrom (finish b) bs

-- In the order of addresses, with no two blocks in touch.
abbrev pub Spaced : List Block → Type 0
Spaced [] = Unit {0}
Spaced (b ∷ bs) = SpacedFrom (finish b) bs

abbrev pub Ordered : List Block → Type 0
Ordered bs = OrderedFrom 0 bs

-- The block has no byte in common with the blocks of the list.
abbrev pub ApartFrom : Block → List Block → Type 0
ApartFrom b [] = Unit {0}
ApartFrom b (p ∷ ps) = ((finish b ≤ p.address) ⊎ (finish p ≤ b.address)) × ApartFrom b ps

merge_from-Spaced :
    (lo : ℕ) (b : Block) (cs : List Block) {bs : List Block}
    → InMemory b
    → AllIn cs
    → OrderedFrom (finish b) cs
    → merge_from b cs ≡ ok bs
    → Spaced bs × (lo < b.address → SpacedFrom lo bs)
unfolding merge_from join
merge_from-Spaced lo b [] {bs} i k o e =
    let only : b ∷ [] ≡ bs = ground arith in
    subst (λ l. Spaced l × (lo < b.address → SpacedFrom lo l)) only (tt, λ h. (h, tt))
merge_from-Spaced lo b (c ∷ cs) {bs} i k o e = elim (ℕ_discrete c.address (end_of b)) [
  | yes touch ↦
      let ends : finish c ≡ finish (join b c) = omega (arith, i) in
      merge_from-Spaced lo (join b c) cs (holds-join 0 b c i k.0 touch).1 k.1
        (subst (λ n. OrderedFrom n cs) ends o.1) (ground arith)
  | no apart ↦
      let (bs', merged, _, _) = merge_from-cover c cs k.0 k.1 in
      let rest = merge_from-Spaced (finish b) c cs k.0 k.1 o.1 merged in
      let whole : b ∷ bs' ≡ bs = ground arith in
      let gap : finish b < c.address = omega (arith, o.0, i.below) in
      subst (λ l. Spaced l × (lo < b.address → SpacedFrom lo l)) whole
        (rest.1 gap, λ h. (h, rest.1 gap))
]

insert_behind-Ordered :
    (lo : ℕ) (b p : Block) (qs : List Block)
    → OrderedFrom lo (p ∷ qs)
    → ApartFrom b (p ∷ qs)
    → p.address ≤ b.address
    → OrderedFrom lo (insert_behind b p qs)
unfolding insert_behind
insert_behind-Ordered lo b p [] o a h = ground arith
insert_behind-Ordered lo b p (q ∷ qs) o a h = elim (Bool-cases (ltb b.address q.address)) [
  | inl e ↦ rw e (o.0, (ground arith, (ground arith, o.1.1)))
  | inr e ↦ rw e (o.0, insert_behind-Ordered (finish p) b q qs o.1 a.1 (ground arith))
]

insert-Ordered : (b : Block) (ps : List Block) → Ordered ps → ApartFrom b ps → Ordered (insert b ps)
unfolding insert
insert-Ordered b [] o a = tt
insert-Ordered b (p ∷ ps) o a = elim (Bool-cases (ltb b.address p.address)) [
  | inl e ↦ rw e (omega arith, (ground arith, o.1))
  | inr e ↦ rw e (insert_behind-Ordered 0 b p ps o a (ground arith))
]

ok-injective {ℓ} : {A : Type ℓ} {a b : A} → ok a ≡ ok b → a ≡ b
ok-injective e = cc

merged-Spaced :
    (bs : List Block) {cs : List Block}
    → AllIn bs
    → Ordered bs
    → ((ds : List Block) → malloc_merge bs ≡ ok ds → ds ≡ cs)
    → Spaced cs
unfolding malloc_merge
merged-Spaced [] i o h = subst Spaced (h [] refl) tt
merged-Spaced (b ∷ bs) i o h =
    let (ds, merged, _, _) = merge_from-cover b bs i.0 i.1 in
    subst Spaced (h ds merged) (merge_from-Spaced 0 b bs i.0 i.1 o.1 merged).0

-- If the free blocks are in the order of addresses and in memory, and the address is that of a used
-- block that has no byte in common with them, then after `Free` the free blocks are in the order of
-- addresses, and no two of them touch.
pub free_coalesces :
    (ptr : ℕ) (h h' : Heap) (b : Block)
    → AllIn h.free
    → AllIn h.used
    → Ordered h.free
    → h.free ≢ []
    → ApartFrom b h.free
    → find (sub32 ptr header_size) h.used ≡ some b
    → free ptr h ≡ ok h'
    → Spaced h'.free
free_coalesces ptr h h' b i k o ne apart e done =
    let inside = (insert-cover b h.free (find-InMemory _ h.used k e) i ne).1 in
    merged-Spaced (insert b h.free) inside (insert-Ordered b h.free o apart) (λ bs m.
      ap (λ (g : Heap). g.free)
        (ok-injective (sym (free-release ptr h e ∙ release-ok b h m) ∙ done)))
