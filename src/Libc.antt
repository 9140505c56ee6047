-- ===== src/Libc.antt =====
-- kernel/libc.cpp: the functions on characters and on memory, which is a function from the address to
-- the byte.
pub mod Copying
pub mod Strings
mod Tests
use baby_osv.Base.{
  ℕ, zero, suc, ◌+◌, ◌-◌, ◌%◌, ◌&&◌, leb, ◌==◌, if◌then◌else◌, update, Bool, true, false, List, [],
  ◌∷◌,
}

unfoldable pub tolower : ℕ → ℕ
tolower c = if leb b'A' c && leb c b'Z' then c + (b'a' - b'A') else c

unfoldable pub toupper : ℕ → ℕ
toupper c = if leb b'a' c && leb c b'z' then c - (b'a' - b'A') else c

-- The loops of `memcpy` and `memmove` for `n` more bytes, from the first on.
unfoldable pub copy_bytes : ℕ → ℕ → ℕ → (ℕ → ℕ) → ℕ → ℕ
copy_bytes zero dst src mem = mem
copy_bytes (suc n) dst src mem = copy_bytes n (dst + 1) (src + 1) (update mem dst (mem src))

unfoldable pub memcpy : ℕ → ℕ → ℕ → (ℕ → ℕ) → ℕ → ℕ
unfolding copy_bytes
memcpy dst src len mem = copy_bytes len dst src mem

unfoldable pub memmove : ℕ → ℕ → ℕ → (ℕ → ℕ) → ℕ → ℕ
unfolding copy_bytes
memmove dst src len mem = copy_bytes len dst src mem

unfoldable pub memset : ℕ → ℕ → ℕ → (ℕ → ℕ) → ℕ → ℕ
memset ptr c zero mem = mem
memset ptr c (suc len) mem = memset (ptr + 1) c len (update mem ptr (c % 256))

-- Whether `strcmp` returns 0, on strings without their terminating 0.
abbrev pub same_string : List ℕ → List ℕ → Bool
same_string [] [] = true
same_string [] (d ∷ ds) = false
same_string (c ∷ cs) [] = false
same_string (c ∷ cs) (d ∷ ds) = (c == d) && same_string cs ds
