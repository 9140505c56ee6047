-- ===== src/Libc/Tests.antt =====
-- Characters, and moving bytes.
use baby_osv.Base.{◌≡◌, refl, update}
use baby_osv.Libc.{toupper, tolower, memmove}

letters : (toupper b'q' ≡ b'Q') × (tolower b'Q' ≡ b'q') × (toupper b'_' ≡ b'_')
unfolding toupper tolower
letters = (refl, refl, refl)

-- From 4 to 5 the second byte is written over before it is read.
overlap : memmove 5 4 2 (λ q. q) 6 ≡ 4
unfolding memmove update
overlap = refl
