-- ===== src/Containers/Linked/Queue.antt =====
-- The list cells a queue: `PushBack` and `PopFront`.
use baby_osv.Base.{
  ℕ, suc, ◌+◌, ◌<◌, ◌≡◌, ◌≢◌, ◌∙◌, refl, sym, ap, false, Option, none, some, List, [], ◌∷◌, ◌++◌,
  length, length-append, ◌==◌, if◌then◌else◌, update, update_self, update_ne, add32, sub32, u32_mod,
  mod_small, mod_once, ◌-◌, arith,
}
use baby_osv.Base.Outcome.{ok}
use baby_osv.Containers.Linked.{Item, Linked, push_back, pop_front}

nonzero : (p : ℕ) → p ≢ 0 → (p == 0) ≡ false
nonzero p n = ground arith

apart : (p q : ℕ) → p ≢ q → (p == q) ≡ false
apart p q n = ground arith

sub_one : (s n : ℕ) → s ≡ suc n → suc n < u32_mod → sub32 s 1 ≡ n
sub_one s n e b =
    mod_once (s + u32_mod - 1) u32_mod (omega (arith, e)) (omega (arith, e, b)) ∙ omega (arith, e)

module _ {A : Type 0} where
  abbrev leading : ℕ → Option (Item A) → Option (Item A)
  leading p none = none
  leading p (some i) = some (record i { next = p })

  -- From the address on, the items are those of the list, each with its address, and then comes `nullptr`.
  abbrev pub Chain : (ℕ → Option (Item A)) → ℕ → List (ℕ × A) → Type 0
  Chain items p [] = p ≡ 0
  Chain items p ((a, x) ∷ cells) =
      (p ≡ a)
      × (a ≢ 0)
      × (i : Item A) × (items a ≡ some i)
      × (i.value ≡ x)
      × Chain items i.next cells

  abbrev pub Away : ℕ → List (ℕ × A) → Type 0
  Away p [] = Unit
  Away p ((a, x) ∷ cells) = (a ≢ p) × Away p cells

  abbrev pub Distinct : List (ℕ × A) → Type 0
  Distinct [] = Unit
  Distinct ((a, x) ∷ cells) = Away a cells × Distinct cells

  abbrev pub last_address : List (ℕ × A) → ℕ
  last_address [] = 0
  last_address ((a, x) ∷ []) = a
  last_address (c ∷ d ∷ cells) = last_address (d ∷ cells)

  -- The list holds these items in this order.
  pub record Holds (l : Linked A) (cells : List (ℕ × A)) : Type 0 where
    pub chain : Chain l.items l.head cells
    pub distinct : Distinct cells
    pub at_end : l.tail ≡ last_address cells
    pub counted : l.size ≡ length cells
    pub bounded : length cells < u32_mod

  Chain-update :
      (items : ℕ → Option (Item A)) (a p : ℕ) (v : Option (Item A)) (cells : List (ℕ × A))
      → Away a cells
      → Chain items p cells
      → Chain (update items a v) p cells
  Chain-update items a p v [] w c = c
  Chain-update items a p v ((b, x) ∷ cells) w c =
      let (e, n, i, it, d, rest) = c in
      (
        e,
        n,
        i,
        update_ne items a b v (λ q. w.0 (sym q)) ∙ it,
        d,
        Chain-update items a i.next v cells w.1 rest,
      )

  Away-last :
      (b : ℕ) (f : ℕ × A) (cells : List (ℕ × A)) → Away b (f ∷ cells) → last_address (f ∷ cells) ≢ b
  Away-last b (g, y) [] w = w.0
  Away-last b (g, y) (h ∷ cells) w = Away-last b h cells w.1

  last_item :
      (items : ℕ → Option (Item A)) (p : ℕ) (f : ℕ × A) (cells : List (ℕ × A))
      → Chain items p (f ∷ cells)
      → (i : Item A) × (items (last_address (f ∷ cells)) ≡ some i)
  last_item items p (g, y) [] (e, m, i, it, id, rest) = (i, it)
  last_item items p (g, y) (h ∷ cells) (e, m, i, it, id, rest) = last_item items i.next h cells rest

  Away-snoc :
      (cells : List (ℕ × A)) (b a : ℕ) (x : A)
      → Away b cells
      → a ≢ b
      → Away b (cells ++ ((a, x) ∷ []))
  Away-snoc [] b a x w n = (n, tt)
  Away-snoc ((c, y) ∷ cells) b a x w n = (w.0, Away-snoc cells b a x w.1 n)

  Distinct-snoc :
      (cells : List (ℕ × A)) (a : ℕ) (x : A)
      → Distinct cells
      → Away a cells
      → Distinct (cells ++ ((a, x) ∷ []))
  Distinct-snoc [] a x d w = (tt, tt)
  Distinct-snoc ((b, y) ∷ cells) a x d w =
      (Away-snoc cells b a x d.0 (λ q. w.0 (sym q)), Distinct-snoc cells a x d.1 w.1)

  -- If the items other than the last one stay, the last one leads to a new one, and that one ends the list,
  -- the new one stands behind the others.
  Chain-extend :
      (items after : ℕ → Option (Item A)) (a p : ℕ) (x : A) (j : Item A) (c : ℕ × A)
      (cells : List (ℕ × A))
      → Chain items p (c ∷ cells)
      → Distinct (c ∷ cells)
      → Away a (c ∷ cells)
      → ((b : ℕ) → b ≢ a → b ≢ last_address (c ∷ cells) → after b ≡ items b)
      → ((i : Item A)
          → items (last_address (c ∷ cells)) ≡ some i
          → after (last_address (c ∷ cells)) ≡ some (record i { next = a }))
      → after a ≡ some j
      → j.value ≡ x
      → j.next ≡ 0
      → a ≢ 0
      → Chain after p ((c ∷ cells) ++ ((a, x) ∷ []))
  Chain-extend items after a p x j (b, y) [] c d w keeps leads new jd jn n =
      let (e, m, i, it, id, rest) = c in
      (e, m, record i { next = a }, leads i it, id, (refl, n, j, new, jd, jn))
  Chain-extend items after a p x j (b, y) (f ∷ cells) c d w keeps leads new jd jn n =
      let (e, m, i, it, id, rest) = c in
      (
        e,
        m,
        i,
        keeps b w.0 (λ q. Away-last b f cells d.0 (sym q)) ∙ it,
        id,
        Chain-extend items after a i.next x j f cells rest d.1 w.1 keeps leads new jd jn n,
      )

  last_address-snoc :
      (cells : List (ℕ × A)) (a : ℕ) (x : A) → last_address (cells ++ ((a, x) ∷ [])) ≡ a
  last_address-snoc [] a x = refl
  last_address-snoc (c ∷ []) a x = refl
  last_address-snoc (c ∷ d ∷ cells) a x = last_address-snoc (d ∷ cells) a x

  push_back-Chain :
      (l : Linked A) (cells : List (ℕ × A)) (p : ℕ) (x : A)
      → Holds l cells
      → Away p cells
      → p ≢ 0
      → (items : ℕ → Option (Item A)) × (head : ℕ) × (push_back p x l
          ≡ ok (record { items = items; head = head; tail = p; size = add32 l.size 1 }))
        × Chain items head (cells ++ ((p, x) ∷ []))
  unfolding push_back
  push_back-Chain l [] p x h w n =
      let new : Item A = record { value = x; prev = 0; next = 0 } in
      (
        update l.items p (some new),
        p,
        rw (h.chain, push_back) refl,
        (refl, n, new, update_self l.items p (some new), refl, refl),
      )
  push_back-Chain l (c ∷ cells) p x h w n =
      let new : Item A = record { value = x; prev = 0; next = 0 } in
      let t = last_address (c ∷ cells) in
      let away : t ≢ p = Away-last p c cells w in
      let (i, it) = last_item l.items l.head c cells h.chain in
      let one = update l.items p (some new) in
      let two = update one t (some (record i { next = p })) in
      let last : Item A = record { value = x; prev = t; next = 0 } in
      let three = update two p (some last) in
      let e : (l.head == 0) ≡ false = nonzero l.head (λ q. h.chain.1 (sym h.chain.0 ∙ q)) in
      let e1 : one t ≡ some i = update_ne l.items p t (some new) (λ q. away (sym q)) ∙ it in
      let e2 : two p ≡ some new =
        update_ne one t p (some (record i { next = p })) away ∙ update_self l.items p (some new) in
      (
        three,
        l.head,
        rw (h.at_end, e, e1, e2, push_back) refl,
        Chain-extend l.items three p l.head x last c cells h.chain h.distinct w
            (λ b na nt.
              update_ne two p b (some last) (λ q. na (sym q))
              ∙ (update_ne one t b (some (record i { next = p })) (λ q. nt (sym q))
                  ∙ update_ne l.items p b (some new) (λ q. na (sym q))))
            (λ k kt.
              update_ne two p t (some last) (λ q. away (sym q))
              ∙ (update_self one t (some (record i { next = p })) ∙ ap (leading p) (sym it ∙ kt)))
            (update_self two p (some last)) refl refl n,
      )

  pub push_back-Holds :
      (l : Linked A) (cells : List (ℕ × A)) (p : ℕ) (x : A)
      → Holds l cells
      → Away p cells
      → p ≢ 0
      → suc (length cells) < u32_mod
      → (m : Linked A) × (push_back p x l ≡ ok m) × Holds m (cells ++ ((p, x) ∷ []))
  push_back-Holds l cells p x h w n b =
      let (items, head, eq, chain) = push_back-Chain l cells p x h w n in
      (
        record { items = items; head = head; tail = p; size = add32 l.size 1 },
        eq,
        record {
          chain = chain;
          distinct = Distinct-snoc cells p x h.distinct w;
          at_end = sym (last_address-snoc cells p x);
          counted =
              mod_small (l.size + 1) u32_mod (omega (arith, h.counted, b))
              ∙ omega (arith, h.counted, length-append cells ((p, x) ∷ []));
          bounded = omega (arith, b, length-append cells ((p, x) ∷ []));
        },
      )

  -- A single item is the last one; else another is.
  tail_after :
      (a : ℕ) (x : A) (cells : List (ℕ × A)) (tail : ℕ)
      → Away a cells
      → tail ≡ last_address ((a, x) ∷ cells)
      → (if tail == a then 0 else tail) ≡ last_address cells
  tail_after a x [] tail w e = ground (arith, e)
  tail_after a x (c ∷ cells) tail w e = rw (apart tail a (λ q. Away-last a c cells w (sym e ∙ q))) e

  pub pop_front-Holds :
      (l : Linked A) (cells : List (ℕ × A)) (p : ℕ) (x : A)
      → Holds l ((p, x) ∷ cells)
      → (m : Linked A) × (pop_front l ≡ ok (x, m)) × Holds m cells
  unfolding pop_front
  pop_front-Holds l cells p x h =
      let (e, n, i, it, id, rest) = h.chain in
      (
        record {
          items = update l.items p none;
          head = i.next;
          tail = if l.tail == p then 0 else l.tail;
          size = sub32 l.size 1;
        },
        rw (e, it, id, pop_front) refl,
        record {
          chain = Chain-update l.items p i.next none cells h.distinct.0 rest;
          distinct = h.distinct.1;
          at_end = tail_after p x cells l.tail h.distinct.0 h.at_end;
          counted = sub_one l.size (length cells) h.counted h.bounded;
          bounded = omega (arith, h.bounded);
        },
      )
