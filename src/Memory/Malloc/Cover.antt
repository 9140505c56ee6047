-- ===== src/Memory/Malloc/Cover.antt =====
-- How often a byte of memory belongs to the blocks of a list.
use native.Mathlib.Decide.{dec_lt, ℕ_discrete}
use baby_osv.Base.{
  subst, Option-cases, Bool-cases, inl, inr, ℕ, ◌+◌, ◌-◌, ◌≤◌, ◌<◌, ◌≡◌, refl, List, [], ◌∷◌, ◌++◌,
  arith, ltb, leb, ◌&&◌, if◌then◌else◌, u32_mod, some,
}
use baby_osv.Base.Outcome.{ok}
use baby_osv.Memory.Malloc.{
  Block, header_size, taken, left_over, first_fit, Fit, join, end_of, insert_behind, merge_from,
}

-- 1 if the byte `x` lies in the block or its header, else 0.
abbrev pub holds : ℕ → Block → ℕ
holds x b = if leb b.address x && ltb x (b.address + header_size + b.length) then 1 else 0

-- The number of blocks of the list that `x` lies in.
abbrev pub cover : ℕ → List Block → ℕ
cover x [] = 0
cover x (b ∷ bs) = holds x b + cover x bs

-- A block that ends below the end of memory, and does not start at `nullptr`.
pub record InMemory (b : Block) : Type 0 where
  pub below : b.address + header_size + b.length < u32_mod

abbrev pub AllIn : List Block → Type 0
AllIn [] = Unit {0}
AllIn (b ∷ bs) = InMemory b × AllIn bs

pub cover-append : (x : ℕ) (bs cs : List Block) → cover x (bs ++ cs) ≡ cover x bs + cover x cs
cover-append x [] cs = omega arith
cover-append x (b ∷ bs) cs = omega (arith, cover-append x bs cs)

-- Splitting a block keeps every byte in exactly one part.
pub cover-taken :
    (x bytes : ℕ) (b : Block)
    → InMemory b
    → bytes ≤ b.length
    → holds x (taken bytes b) + cover x (left_over bytes b) ≡ holds x b
unfolding taken left_over
cover-taken x bytes b i h = ground arith

-- The two ways to find a block.
pub data FirstFit (bytes : ℕ) : List Block → Fit → Type 0 where
  here :
      {b : Block} {bs : List Block} {f : Fit}
      → bytes ≤ b.length
      → record { block = taken bytes b; rest = left_over bytes b ++ bs } ≡ f
      → FirstFit bytes (b ∷ bs) f
  there :
      {b : Block} {bs : List Block} {g f : Fit}
      → b.length < bytes
      → FirstFit bytes bs g
      → record g { rest = b ∷ g.rest } ≡ f
      → FirstFit bytes (b ∷ bs) f

pub first_fit-FirstFit :
    (bytes : ℕ) (bs : List Block) {f : Fit} → first_fit bytes bs ≡ some f → FirstFit bytes bs f
unfolding first_fit
first_fit-FirstFit bytes [] e = cc
first_fit-FirstFit bytes (b ∷ bs) {f} e = elim (dec_lt b.length bytes) [
  | no fits ↦ here (omega arith) (ground arith)
  | yes short ↦ elim (Option-cases (first_fit bytes bs)) [
    | inl none_there ↦ absurd (ground arith)
    | inr (g, found) ↦ there {g = g} short (first_fit-FirstFit bytes bs found) (ground arith)
  ]
]

pub cover-FirstFit :
    (x bytes : ℕ) {bs : List Block} {f : Fit}
    → AllIn bs
    → FirstFit bytes bs f
    → holds x f.block + cover x f.rest ≡ cover x bs
cover-FirstFit x bytes i (here {b} {bs} fits e) =
    subst (λ f. holds x f.block + cover x f.rest ≡ holds x b + cover x bs) e
      (omega (arith, cover-append x (left_over bytes b) bs, cover-taken x bytes b i.0 fits))
cover-FirstFit x bytes i (there {b} {bs} {g} short r e) =
    subst (λ f. holds x f.block + cover x f.rest ≡ holds x b + cover x bs) e
      (omega (arith, cover-FirstFit x bytes i.1 r))

pub AllIn-append : (bs cs : List Block) → AllIn bs → AllIn cs → AllIn (bs ++ cs)
AllIn-append [] cs i k = k
AllIn-append (b ∷ bs) cs i k = (i.0, AllIn-append bs cs i.1 k)

split-InMemory :
    (bytes : ℕ) (b : Block)
    → InMemory b
    → bytes ≤ b.length
    → InMemory (taken bytes b) × AllIn (left_over bytes b)
unfolding taken left_over
split-InMemory bytes b i fits = elim (Bool-cases (ltb header_size (b.length - bytes))) [
  | inl e ↦ rw e (omega arith, (ground arith, tt))
  | inr e ↦ rw e (i, tt)
]

pub FirstFit-InMemory :
    (bytes : ℕ) {bs : List Block} {f : Fit}
    → AllIn bs
    → FirstFit bytes bs f
    → InMemory f.block × AllIn f.rest
FirstFit-InMemory bytes i (here {b} {bs} fits e) =
    subst (λ f. InMemory f.block × AllIn f.rest) e
      (let (first, left) = split-InMemory bytes b i.0 fits in
        (first, AllIn-append (left_over bytes b) bs left i.1))
FirstFit-InMemory bytes i (there {b} {bs} {g} short r e) =
    subst (λ f. InMemory f.block × AllIn f.rest) e
      (let (first, rest) = FirstFit-InMemory bytes i.1 r in (first, (i.0, rest)))

pub holds-join :
    (x : ℕ) (b c : Block)
    → InMemory b
    → InMemory c
    → c.address ≡ end_of b
    → (holds x (join b c) ≡ holds x b + holds x c) × InMemory (join b c)
unfolding join
holds-join x b c i k e = ground arith

-- Merging keeps every byte in as many blocks as before, and always succeeds.
pub merge_from-cover :
    (b : Block) (cs : List Block)
    → InMemory b
    → AllIn cs
    → (bs : List Block) × (merge_from b cs ≡ ok bs)
      × ((x : ℕ) → cover x bs ≡ holds x b + cover x cs)
      × AllIn bs
unfolding merge_from
merge_from-cover b [] i k = (b ∷ [], ground arith, λ x. refl, (i, tt))
merge_from-cover b (c ∷ cs) i k = elim (ℕ_discrete c.address (end_of b)) [
  | yes e ↦
      let together = λ (x : ℕ). holds-join x b c i k.0 e in
      let (bs, merged, same, inside) = merge_from-cover (join b c) cs (together 0).1 k.1 in
      (bs, ground arith, λ x. omega (arith, same x, (together x).0), inside)
  | no apart ↦
      let (bs, merged, same, inside) = merge_from-cover c cs k.0 k.1 in
      (b ∷ bs, ground arith, λ x. omega (arith, same x), (i, inside))
]

pub insert_behind-cover :
    (x : ℕ) (b p : Block) (qs : List Block)
    → cover x (insert_behind b p qs) ≡ holds x b + holds x p + cover x qs
unfolding insert_behind
insert_behind-cover x b p [] = omega arith
insert_behind-cover x b p (q ∷ qs) = ground (arith, insert_behind-cover x b q qs)

pub insert_behind-AllIn :
    (b p : Block) (qs : List Block)
    → InMemory b
    → InMemory p
    → AllIn qs
    → AllIn (insert_behind b p qs)
unfolding insert_behind
insert_behind-AllIn b p [] i j k = (j, (i, tt))
insert_behind-AllIn b p (q ∷ qs) i j k = elim (Bool-cases (ltb b.address q.address)) [
  | inl e ↦ rw e (j, (i, k))
  | inr e ↦ rw e (j, insert_behind-AllIn b q qs i k.0 k.1)
]
