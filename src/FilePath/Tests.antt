-- ===== src/FilePath/Tests.antt =====
-- Paths of two names.
use baby_osv.Base.{ℕ, ◌≡◌, refl, List, [], ◌∷◌, arith}
use baby_osv.Base.Outcome.{ok, fault, halted, ◌>>=◌}
use baby_osv.Containers.Strings.{data_of}
use baby_osv.FilePath.{FilePath, path_of, to_string}
use baby_osv.FilePath.Components.{path_of-to_string, to_string_lem}

abbrev names : FilePath
names = (b'd' ∷ b'e' ∷ []) ∷ (b'k' ∷ []) ∷ []

-- A `/` at the end adds an empty name, and a path of one character halts.
slash_at_end : path_of (b'/' ∷ b'd' ∷ b'/' ∷ []) ≡ ok ((b'd' ∷ []) ∷ [] ∷ [])
unfolding path_of
slash_at_end = refl

one_letter : path_of (b'/' ∷ b'd' ∷ []) ≡ halted
unfolding path_of
one_letter = refl

abbrev long : List ℕ
long =
    b'a' ∷ b'a' ∷ b'a' ∷ b'a' ∷ b'a' ∷ b'a' ∷ b'a' ∷ b'a' ∷ b'a' ∷ b'a' ∷ b'a' ∷ b'a' ∷ b'a' ∷ b'a'
    ∷ b'a' ∷ []

to_string_lem_example : to_string (long ∷ long ∷ []) ≡ fault
to_string_lem_example = to_string_lem long (long ∷ []) refl

path_of-to_string_example : (to_string names >>= λ s. path_of (data_of s)) ≡ ok names
path_of-to_string_example =
    path_of-to_string (b'd' ∷ b'e' ∷ []) ((b'k' ∷ []) ∷ []) (omega arith) refl refl (omega arith)
      (omega arith)
