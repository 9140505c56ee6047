-- ===== src/FilePath.antt =====
-- kernel/FS/Path.cpp. The array `paths` is the list of the characters of its strings. `fault` is a write
-- behind the end of `buffer_s`, as for the copy of a name of 32 characters.
pub mod Components
mod Tests
use baby_osv.Base.{
  ℕ, ◌+◌, ◌≤◌, Bool, true, false, ◌&&◌, List, [], ◌∷◌, ◌++◌, length, leb, ◌==◌, if◌then◌else◌,
}
use baby_osv.Base.Outcome.{Outcome, ok, assert, ◌>>=◌, ◌>>◌}
use baby_osv.Containers.Strings
use baby_osv.Containers.Strings.{
  String, empty_string, string_of, add_string, data_of, assign_string,
}

abbrev pub FilePath : Type 0
FilePath = List (List ℕ)

-- `String(tmp)` in `Add`
unfoldable pub copied : List ℕ → Outcome (List ℕ)
unfolding string_of data_of
copied name = string_of name >>= λ s. ok (data_of s)

unfoldable pub add : List ℕ → FilePath → Outcome FilePath
unfolding copied
add name path = copied name >>= λ chars. ok (path ++ (chars ∷ []))

-- `PopBack`, or nothing where there is none.
unfoldable pub go_up : FilePath → FilePath
go_up [] = []
go_up (x ∷ []) = []
go_up (x ∷ y ∷ path) = x ∷ go_up (y ∷ path)

-- The loop over `path`, where `name` are the characters from `lastIndex` on. The last character is never a
-- `/` behind the loop, which has put a 0 in the place of each.
unfoldable pub split : List ℕ → List ℕ → Outcome FilePath
unfolding copied
split name [] = copied name >>= λ chars. ok (chars ∷ [])
split name (c ∷ cs) =
    let cut = split [] cs in
    let longer = split (name ++ (c ∷ [])) cs in
    if c == b'/' then (copied name >>= λ chars. cut >>= λ path. ok (chars ∷ path)) else longer

abbrev pub path_in : List ℕ → Outcome FilePath
path_in (c ∷ d ∷ cs) = assert ((c == b'/') && leb 1 (length cs)) >> split (d ∷ []) cs
path_in cs = assert false >> ok []

-- `Path(String(chars))`; the constructor copies the string first.
unfoldable pub path_of : List ℕ → Outcome FilePath
unfolding string_of assign_string data_of split
path_of chars = string_of chars >>= λ s. assign_string s empty_string >>= λ t. path_in (data_of t)

-- A round of the loop in `ToString`; `itr` is a string of its own.
abbrev pub add_name : List ℕ → String → Outcome String
add_name name str = baby_osv.Containers.Strings.add (b'/' ∷ []) 1 str >>= λ t.
    string_of name >>= λ itr. add_string itr t

abbrev pub add_names : FilePath → String → Outcome String
add_names [] str = ok str
add_names (name ∷ path) str = add_name name str >>= add_names path

-- `ToString()`, which returns `str` itself.
unfoldable pub to_string : FilePath → Outcome String
unfolding string_of add_string baby_osv.Containers.Strings.add
to_string [] = string_of (b'/' ∷ [])
to_string (name ∷ path) = add_names (name ∷ path) empty_string
