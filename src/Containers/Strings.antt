-- ===== src/Containers/Strings.antt =====
-- kernel/Containers/String.hpp. A buffer is the list of its characters before the terminating 0; a copy that
-- does not fit its buffer with the 0 is a `fault`. Sizes are below 2 ^ 31.
use baby_osv.Base.{
  ℕ, ◌+◌, ◌-◌, ◌*◌, Bool, true, false, ◌&&◌, not, Option, none, some, List, [], ◌∷◌, ◌++◌, ltb, leb,
  length, get_elem?, if◌then◌else◌,
}
use baby_osv.Base.Outcome.{Outcome, ok, fault, assert, access, ◌>>=◌, ◌>>◌}

-- `buffer` is `none` while the characters stand in `buffer_s`.
pub record String : Type 0 where
  pub buffer_s : List ℕ
  pub buffer : Option (List ℕ)
  pub length : ℕ
  pub capacity : ℕ

-- `sizeof(buffer_s)`
abbrev pub small_size : ℕ
small_size = 32

abbrev pub empty_string : String
empty_string = record { buffer_s = []; buffer = none; length = 0; capacity = 0 }

abbrev pub data_in : Option (List ℕ) → List ℕ → List ℕ
data_in none small = small
data_in (some chars) small = chars

abbrev pub has_buffer : String → Bool
has_buffer s = elim s.buffer [ none ↦ false | some chars ↦ true ]

unfoldable pub data_of : String → List ℕ
data_of s = data_in s.buffer s.buffer_s

unfoldable pub capacity_of : String → ℕ
capacity_of s = elim s.buffer [ none ↦ small_size - 1 | some chars ↦ s.capacity ]

-- `operator[]`; the bytes behind the terminating 0 of `buffer_s` are not modelled.
unfoldable pub char_at : ℕ → String → Outcome ℕ
char_at index s = elim s.buffer [
  | none ↦ assert (ltb index small_size) >> access (get_elem? (s.buffer_s ++ (0 ∷ [])) index)
  | some chars ↦ assert (ltb index s.length) >> access (get_elem? (chars ++ (0 ∷ [])) index)
]

-- `strcpy` and `strcat` give these characters, in a buffer of the size.
abbrev pub fitting : ℕ → List ℕ → Outcome (List ℕ)
fitting size chars = if ltb (length chars) size then ok chars else fault

abbrev pub enough : ℕ → ℕ → ℕ
enough size min_req_size = if leb size min_req_size then min_req_size + 1 else size

abbrev pub kept : ℕ → List ℕ → List ℕ
kept length chars = if ltb 0 length then chars else []

abbrev pub in_buffer : String → ℕ → List ℕ → Outcome String
in_buffer s size chars =
    fitting size chars >>= λ c. ok (record s { buffer = some c; capacity = size })

unfoldable pub realloc : ℕ → String → Outcome String
realloc min_req_size s = elim s.buffer [
  | none ↦ in_buffer s (enough (small_size * 2) min_req_size) (kept s.length s.buffer_s)
  | some chars ↦ in_buffer s (enough (s.capacity * 2) min_req_size) (kept s.length chars)
]

-- Behind the choice of the buffer: `chars` are what it holds then.
abbrev pub put : List ℕ → String → Outcome String
put chars s = elim s.buffer [
  | none ↦ fitting small_size chars >>= λ c. ok (record s { buffer_s = c })
  | some old ↦ in_buffer s s.capacity chars
]

-- Whether the characters go where those of the string are.
abbrev pub stays : ℕ → String → Bool
stays arg_len s = elim s.buffer [
  | none ↦ ltb arg_len (small_size + 1)
  | some chars ↦ ltb arg_len s.capacity
]

abbrev pub assign_chars : List ℕ → ℕ → String → Outcome String
assign_chars arg arg_len s =
    if stays arg_len s
    then put arg s
    else (realloc (arg_len + 1) (record s { buffer = none; length = 0 }) >>= put arg)

unfoldable pub assign : List ℕ → ℕ → String → Outcome String
unfolding realloc
assign arg arg_len s = assign_chars arg arg_len s >>= λ t. ok (record t { length = arg_len })

-- The string with room for `dst_len` characters.
abbrev pub with_room : ℕ → String → Outcome String
with_room dst_len s =
    if leb (dst_len + 1) small_size && not (has_buffer s)
    then ok s
    else if ltb (dst_len + 1) s.capacity
    then (if has_buffer s then ok s else fault)
    else realloc (dst_len + 1) s

-- The length stays as it was.
unfoldable pub add : List ℕ → ℕ → String → Outcome String
unfolding realloc data_of
add arg arg_len s = with_room (s.length + arg_len) s >>= λ t. put (data_of t ++ arg) t

-- `String(arg)`
unfoldable pub string_of : List ℕ → Outcome String
unfolding assign
string_of arg = assign arg (length arg) empty_string

-- `String(arg)` and `operator=` of another `String`.
unfoldable pub assign_string : String → String → Outcome String
unfolding assign data_of
assign_string arg s = assign (data_of arg) arg.length s

-- `operator+=` of another `String`.
unfoldable pub add_string : String → String → Outcome String
unfolding add data_of
add_string arg s = add (data_of arg) arg.length s
