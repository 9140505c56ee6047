-- ===== src/Libc/Copying.antt =====
-- What `memcpy`, `memmove` and `memset` leave in memory.
use baby_osv.Base.{
  ℕ, zero, suc, ◌+◌, ◌-◌, ◌≤◌, ◌≡◌, ◌∙◌, ◌⊎◌, ◌&&◌, ltb, leb, if◌then◌else◌, arith, update,
}
use baby_osv.Libc.{copy_bytes, memcpy, memmove}

-- The bytes from `src` on, put to `dst`.
abbrev pub copied : ℕ → ℕ → ℕ → (ℕ → ℕ) → ℕ → ℕ
copied dst src n mem q = if leb dst q && ltb q (dst + n) then mem (src + (q - dst)) else mem q

copied_step :
    (n dst src : ℕ) (mem : ℕ → ℕ) (q : ℕ)
    → (dst ≤ src) ⊎ (src + suc n ≤ dst)
    → copied (dst + 1) (src + 1) n (update mem dst (mem src)) q ≡ copied dst src (suc n) mem q
unfolding update
copied_step n dst src mem q apart = grind arith

copy_bytes_lem :
    (n dst src : ℕ) (mem : ℕ → ℕ) (q : ℕ)
    → (dst ≤ src) ⊎ (src + n ≤ dst)
    → copy_bytes n dst src mem q ≡ copied dst src n mem q
unfolding copy_bytes
copy_bytes_lem zero dst src mem q apart = ground arith
copy_bytes_lem (suc n) dst src mem q apart =
    copy_bytes_lem n (dst + 1) (src + 1) (update mem dst (mem src)) q (omega (arith, apart))
    ∙ copied_step n dst src mem q apart

-- If the destination does not begin inside the source, behind its first byte, `memcpy` and `memmove` put
-- the bytes of the source, as they were, to the destination and change nothing else.
pub memmove_lem :
    (dst src len : ℕ) (mem : ℕ → ℕ) (q : ℕ)
    → (dst ≤ src) ⊎ (src + len ≤ dst)
    → (memcpy dst src len mem q ≡ copied dst src len mem q)
      × (memmove dst src len mem q ≡ copied dst src len mem q)
unfolding memcpy memmove
memmove_lem dst src len mem q apart =
    (copy_bytes_lem len dst src mem q apart, copy_bytes_lem len dst src mem q apart)
