-- ===== src/FilePath/Components.antt =====
-- Paths and their text.
use baby_osv.Base.{
  ℕ, ◌+◌, ◌≤◌, ◌<◌, ◌≡◌, ◌∙◌, refl, sym, ap, inl, inr, Bool, true, false, not, ◌&&◌, none, List, [],
  ◌∷◌, ◌++◌, append-nil, append_assoc, length, length-append, ltb, leb, ◌==◌, if◌then◌else◌, arith,
  Bool-cases, ltb→lt, subst,
}
use native.Mathlib.Decide.{dec_lt}
use baby_osv.Base.Outcome.{ok, fault, ◌>>=◌}
use baby_osv.Containers.Strings.{
  String, empty_string, string_of, assign, assign_string, add_string, data_of, realloc, in_buffer,
}
use baby_osv.Containers.Strings
use baby_osv.FilePath.{FilePath, copied, split, path_in, path_of, add_name, add_names, to_string}

-- The text of a path: each name behind a `/`.
abbrev pub join : FilePath → List ℕ
join [] = []
join (name ∷ path) = b'/' ∷ (name ++ join path)

abbrev pub no_slash : List ℕ → Bool
no_slash [] = true
no_slash (c ∷ cs) = not (c == b'/') && no_slash cs

abbrev pub all_plain : FilePath → Bool
all_plain [] = true
all_plain (name ∷ path) = no_slash name && all_plain path

left_and : (a c : Bool) → (a && c) ≡ true → a ≡ true
left_and true c h = refl
left_and false c h = absurd (ground (arith, h))

right_and : (a c : Bool) → (a && c) ≡ true → c ≡ true
right_and true c h = h
right_and false c h = absurd (ground (arith, h))

not_and : (a c : Bool) → (not a && c) ≡ true → a ≡ false
not_and true c h = absurd (ground (arith, h))
not_and false c h = refl

-- A string whose characters stand in `buffer_s`.
abbrev pub small : List ℕ → ℕ → String
small chars n = record { buffer_s = chars; buffer = none; length = n; capacity = 0 }

below : (a b : ℕ) → a < b → ltb a b ≡ true
below a b h = ground arith

string_of-small :
    (chars : List ℕ) → length chars < 32 → string_of chars ≡ ok (small chars (length chars))
unfolding string_of assign
string_of-small chars h =
    rw (below (length chars) 33 (omega (arith, h)), below (length chars) 32 h, string_of, assign)
      refl

abbrev pub all_short : FilePath → Bool
all_short [] = true
all_short (name ∷ path) = ltb (length name) 32 && all_short path

pub copied-short : (name : List ℕ) → length name < 32 → copied name ≡ ok name
unfolding copied data_of
copied-short name h = rw (string_of-small name h, copied) refl

split-join :
    (cs name : List ℕ) (path : FilePath)
    → no_slash cs ≡ true
    → all_plain path ≡ true
    → length (name ++ cs) < 32
    → all_short path ≡ true
    → split name (cs ++ join path) ≡ ok ((name ++ cs) ∷ path)
unfolding split
split-join [] name [] h p l a =
    let short : length name < 32 = subst (λ x. length x < 32) (append-nil name) l in
    ap (λ r. r >>= λ chars. ok (chars ∷ [])) (copied-short name short)
    ∙ ap (λ x. ok (x ∷ [])) (sym (append-nil name))
split-join [] name (n ∷ path) h p l a =
    let short : length name < 32 = subst (λ x. length x < 32) (append-nil name) l in
    ap (λ r. r >>= λ chars. split [] (n ++ join path) >>= λ q. ok (chars ∷ q))
      (copied-short name short)
    ∙ (ap (λ r. r >>= λ q. ok (name ∷ q))
          (split-join n [] path (left_and (no_slash n) (all_plain path) p)
            (right_and (no_slash n) (all_plain path) p)
            (ltb→lt (length n) 32 (left_and (ltb (length n) 32) (all_short path) a))
            (right_and (ltb (length n) 32) (all_short path) a))
        ∙ ap (λ x. ok (x ∷ n ∷ path)) (sym (append-nil name)))
split-join (c ∷ cs) name path h p l a =
    let joined = append_assoc name (c ∷ []) cs in
    rw (not_and (c == b'/') (no_slash cs) h) (
      split-join cs (name ++ (c ∷ [])) path (right_and (not (c == b'/')) (no_slash cs) h) p
        (subst (λ x. length x < 32) (sym joined) l) a
      ∙ ap (λ x. ok (x ∷ path)) joined)

not_below : (a b : ℕ) → b ≤ a → ltb a b ≡ false
not_below a b h = ground arith

at_most : (a b : ℕ) → a ≤ b → leb a b ≡ true
at_most a b h = ground arith

add-small :
    (chars arg : List ℕ)
    → length arg < 32
    → baby_osv.Containers.Strings.add arg (length arg) (small chars 0)
      ≡ (if ltb (length (chars ++ arg)) 32 then ok (small (chars ++ arg) 0) else fault)
unfolding baby_osv.Containers.Strings.add data_of
add-small chars arg h = elim (Bool-cases (ltb (length (chars ++ arg)) 32)) [
  | inl e ↦
      rw (at_most (0 + length arg + 1) 32 (omega (arith, h)), e, baby_osv.Containers.Strings.add)
        refl
  | inr e ↦
      rw (at_most (0 + length arg + 1) 32 (omega (arith, h)), e, baby_osv.Containers.Strings.add)
        refl
]

add_name-small :
    (chars name : List ℕ)
    → length name < 32
    → add_name name (small chars 0) ≡ (
        if ltb (length (chars ++ (b'/' ∷ name))) 32
        then ok (small (chars ++ (b'/' ∷ name)) 0)
        else fault)
unfolding add_string data_of
add_name-small chars name h =
    let joined = append_assoc chars (b'/' ∷ []) name in
    elim (dec_lt (length (chars ++ (b'/' ∷ []))) 32) [
      | yes l ↦
          rw
            (
              add-small chars (b'/' ∷ []) (omega arith),
              below (length (chars ++ (b'/' ∷ []))) 32 l,
              string_of-small name h,
            )
            (subst
              (λ cs.
                baby_osv.Containers.Strings.add name (length name) (small (chars ++ (b'/' ∷ [])) 0)
                ≡ (if ltb (length cs) 32 then ok (small cs 0) else fault))
              joined (add-small (chars ++ (b'/' ∷ [])) name h))
      | no g ↦
          rw
            (
              add-small chars (b'/' ∷ []) (omega arith),
              not_below (length (chars ++ (b'/' ∷ []))) 32 (omega (arith, g)),
              not_below (length (chars ++ (b'/' ∷ name))) 32 (
                  omega
                    (arith, g, length-append chars (b'/' ∷ []), length-append chars (b'/' ∷ name))),
            )
            refl
    ]

add_names-small :
    (path : FilePath) (chars : List ℕ)
    → length chars < 32
    → all_short path ≡ true
    → add_names path (small chars 0)
      ≡ (if ltb (length (chars ++ join path)) 32 then ok (small (chars ++ join path) 0) else fault)
add_names-small [] chars h a = rw (append-nil chars, below (length chars) 32 h) refl
add_names-small (name ∷ path) chars h a = elim (dec_lt (length (chars ++ (b'/' ∷ name))) 32) [
  | yes l ↦
      rw
        (
          add_name-small chars name
              (ltb→lt (length name) 32 (left_and (ltb (length name) 32) (all_short path) a)),
          below (length (chars ++ (b'/' ∷ name))) 32 l,
        )
        (subst
          (λ cs.
            add_names path (small (chars ++ (b'/' ∷ name)) 0)
            ≡ (if ltb (length cs) 32 then ok (small cs 0) else fault))
          (append_assoc chars (b'/' ∷ name) (join path))
          (add_names-small path (chars ++ (b'/' ∷ name)) l
            (right_and (ltb (length name) 32) (all_short path) a)))
  | no g ↦
      rw
        (
          add_name-small chars name
              (ltb→lt (length name) 32 (left_and (ltb (length name) 32) (all_short path) a)),
          not_below (length (chars ++ (b'/' ∷ name))) 32 (omega (arith, g)),
          not_below (length (chars ++ (b'/' ∷ (name ++ join path)))) 32 (
              omega (
                arith,
                g,
                length-append chars (b'/' ∷ name),
                length-append chars (b'/' ∷ (name ++ join path)),
                length-append name (join path),
              )),
        )
        refl
]

-- Where every name is shorter than 32 characters, `ToString` of a path that is not empty gives each name
-- behind a `/` if that are fewer than 32 characters, but with 0 for the length; otherwise it writes
-- behind the end of `buffer_s`.
pub to_string_lem :
    (name : List ℕ) (path : FilePath)
    → all_short (name ∷ path) ≡ true
    → to_string (name ∷ path)
      ≡ (if ltb (length (join (name ∷ path))) 32 then ok (small (join (name ∷ path)) 0) else fault)
unfolding to_string
to_string_lem name path a = add_names-small (name ∷ path) [] (omega arith) a

path_in-join :
    (d : ℕ) (ds : List ℕ) (path : FilePath)
    → all_plain ((d ∷ ds) ∷ path) ≡ true
    → all_short ((d ∷ ds) ∷ path) ≡ true
    → 3 ≤ length (join ((d ∷ ds) ∷ path))
    → path_in (join ((d ∷ ds) ∷ path)) ≡ ok ((d ∷ ds) ∷ path)
path_in-join d ds path a b l =
    let plain = left_and (no_slash (d ∷ ds)) (all_plain path) a in
    rw (at_most 1 (length (ds ++ join path)) (omega (arith, l))) (
      split-join ds (d ∷ []) path (right_and (not (d == b'/')) (no_slash ds) plain)
        (right_and (no_slash (d ∷ ds)) (all_plain path) a)
        (ltb→lt (length (d ∷ ds)) 32 (left_and (ltb (length (d ∷ ds)) 32) (all_short path) b))
        (right_and (ltb (length (d ∷ ds)) 32) (all_short path) b))

path_of-join :
    (name : List ℕ) (path : FilePath)
    → 1 ≤ length name
    → all_plain (name ∷ path) ≡ true
    → all_short (name ∷ path) ≡ true
    → 3 ≤ length (join (name ∷ path))
    → length (join (name ∷ path)) < 32
    → path_of (join (name ∷ path)) ≡ ok (name ∷ path)
unfolding path_of string_of assign_string data_of
path_of-join [] path h a b l n = absurd (omega (arith, h))
path_of-join (d ∷ ds) path h a b l n =
    let chars = join ((d ∷ ds) ∷ path) in
    rw (string_of-small chars n, path_of)
      (rw (string_of-small chars n) (path_in-join d ds path a b l))

-- The text of a path that is not empty, as `ToString` writes it for a buffer, gives the path again, where
-- its first name is not empty, no name has a `/`, and the text has from 3 to 31 characters.
pub path_of-to_string :
    (name : List ℕ) (path : FilePath)
    → 1 ≤ length name
    → all_plain (name ∷ path) ≡ true
    → all_short (name ∷ path) ≡ true
    → 3 ≤ length (join (name ∷ path))
    → length (join (name ∷ path)) < 32
    → (to_string (name ∷ path) >>= λ s. path_of (data_of s)) ≡ ok (name ∷ path)
unfolding data_of
path_of-to_string name path h a b l n =
    rw (to_string_lem name path b, below (length (join (name ∷ path))) 32 n)
      (path_of-join name path h a b l n)
