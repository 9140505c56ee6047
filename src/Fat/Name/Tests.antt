-- ===== src/Fat/Name/Tests.antt =====
-- Names of files.
use baby_osv.Base.{◌≡◌, refl, [], ◌∷◌, ◌++◌, arith}
use baby_osv.Fat.Name.{space, dot, lfn_to_f83, f83_to_lfn}
use baby_osv.Fat.Name.Short.{field, lfn_to_f83_lem}

-- "ab.c" becomes "AB      C", a 0 and a space.
lfn_to_f83_lem_example :
    lfn_to_f83 (b'a' ∷ b'b' ∷ dot ∷ b'c' ∷ [])
    ≡ field 8 (b'a' ∷ b'b' ∷ []) ++ field 3 (b'c' ∷ 0 ∷ [])
lfn_to_f83_lem_example =
    lfn_to_f83_lem (b'a' ∷ b'b' ∷ []) (b'c' ∷ []) refl (omega arith) (omega arith)

-- "A       TXT" becomes "A.TXT".
f83_to_lfn_runs :
    f83_to_lfn
      (b'A' ∷ space ∷ space ∷ space ∷ space ∷ space ∷ space ∷ space ∷ b'T' ∷ b'X' ∷ b'T' ∷ [])
    ≡ b'A' ∷ dot ∷ b'T' ∷ b'X' ∷ b'T' ∷ []
unfolding f83_to_lfn
f83_to_lfn_runs = refl
