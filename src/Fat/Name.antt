-- ===== src/Fat/Name.antt =====
-- File names in kernel/FS/FAT.cpp: `StrFindLastOf`, `LFNToF83` and `F83ToLFN`. A C string is the list
-- of its characters before the terminating 0.
pub mod Short
mod Tests
use baby_osv.Base.{
  ℕ, zero, suc, ◌+◌, ◌-◌, Bool, true, false, ◌&&◌, ◌||◌, List, [], ◌∷◌, ◌++◌, ltb, leb, ◌==◌,
  if◌then◌else◌, length, get_or, take, drop, u32_mod, add32, sub32,
}
use baby_osv.Libc.{toupper}

abbrev pub space : ℕ
space = b' '

abbrev pub dot : ℕ
dot = b'.'

-- `pos` is -1 before the first hit, and the result is read as unsigned.
abbrev pub not_found : ℕ
not_found = u32_mod - 1

unfoldable pub find_last_from : List ℕ → ℕ → ℕ → ℕ → ℕ
find_last_from [] c a pos = pos
find_last_from (x ∷ str) c a pos = find_last_from str c (a + 1) (if x == c then a else pos)

unfoldable pub str_find_last_of : List ℕ → ℕ → ℕ
unfolding find_last_from
str_find_last_of str c = find_last_from str c 0 not_found

-- `dotPos`: the last dot, unless there is none or it ends the name.
unfoldable pub dot_pos : List ℕ → ℕ
unfolding str_find_last_of
dot_pos lfn =
    let pos = str_find_last_of lfn dot in
    if (pos == not_found) || leb (length lfn) (add32 pos 1) then length lfn else pos

-- The character that the loop of `LFNToF83` stores at `a`; `lfn[length]` is the terminating 0.
unfoldable pub f83_char : List ℕ → ℕ → ℕ → ℕ
f83_char lfn pos a =
    if ltb a pos && ltb a 8
    then toupper (get_or lfn a 0)
    else if leb 8 a && ltb (a - 8) (length lfn - pos)
    then toupper (get_or lfn (pos + (a - 8) + 1) 0)
    else space

unfoldable pub f83_from : List ℕ → ℕ → ℕ → ℕ → List ℕ
unfolding f83_char
f83_from lfn pos zero a = []
f83_from lfn pos (suc n) a = f83_char lfn pos a ∷ f83_from lfn pos n (a + 1)

unfoldable pub lfn_to_f83 : List ℕ → List ℕ
unfolding f83_from dot_pos
lfn_to_f83 lfn = f83_from lfn (dot_pos lfn) 11 0

-- The characters before the first space: both loops of `F83ToLFN`.
abbrev pub until_space : List ℕ → List ℕ
until_space [] = []
until_space (x ∷ xs) = if x == space then [] else x ∷ until_space xs

abbrev pub with_dot : List ℕ → List ℕ
with_dot [] = []
with_dot (x ∷ xs) = dot ∷ x ∷ xs

-- What `F83ToLFN` writes; it writes no terminating 0.
unfoldable pub f83_to_lfn : List ℕ → List ℕ
f83_to_lfn filename =
    until_space (take 8 filename) ++ with_dot (until_space (take 3 (drop 8 filename)))
