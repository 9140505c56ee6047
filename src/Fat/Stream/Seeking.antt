-- ===== src/Fat/Stream/Seeking.antt =====
-- `FileSetPointer` at the end of a buffer.
use baby_osv.Base.{
  ℕ, zero, suc, ◌%◌, ◌<◌, ◌≡◌, refl, ap, ◌∙◌, true, false, none, some, ltb, ◌==◌, if◌then◌else◌,
  add32, sub32, u32_mod, arith, mod_once,
}
use baby_osv.Fat.Volume.{Info}
use baby_osv.Fat.Directory.{buffer_size_of}
use baby_osv.Fat.File.{File, go_to}
use baby_osv.Fat.Stream.{seek_from, file_set_pointer, to_start}

seek_from-none :
    (fuel c : ℕ) (i : Info) (f : File)
    → f.cache ≡ some c
    → 0 < buffer_size_of i c
    → buffer_size_of i c < u32_mod
    → seek_from fuel (buffer_size_of i c) 0 i f ≡ none
unfolding seek_from
seek_from-none zero c i f e some_bytes small = refl
seek_from-none (suc fuel) c i f e some_bytes small =
    let size = buffer_size_of i c in
    let goes : ltb 0 size ≡ true = ground (arith, some_bytes) in
    let fits : ltb size (sub32 size 0) ≡ false = ground (arith, small) in
    let stays : add32 0 (size % size) ≡ 0 =
      omega (arith, some_bytes, mod_once size size (omega arith) (omega (arith, some_bytes))) in
    rw (seek_from, goes, e, fits, stays) (seek_from-none fuel c i f e some_bytes small)

-- `FileSetPointer` to the offset that is the size of the buffer, in a file that stands in its first
-- cluster, never returns: after any number of rounds its loop goes on.
pub file_set_pointer-none :
    (fuel : ℕ) (i : Info) (f : File)
    → f.cache ≡ some f.root_cluster
    → 0 < buffer_size_of i f.root_cluster
    → buffer_size_of i f.root_cluster < u32_mod
    → file_set_pointer fuel (buffer_size_of i f.root_cluster) i f ≡ none
unfolding file_set_pointer
file_set_pointer-none fuel i f e some_bytes small =
    let size = buffer_size_of i f.root_cluster in
    let first : (f.root_cluster == f.root_cluster) ≡ true = ground arith in
    let stays : to_start f.cache i f ≡ (i, f) =
      ap (λ o. to_start o i f) e
      ∙ ap (λ b. if b then (i, f) else go_to f.root_cluster f.root_cluster i f) first in
    ap (λ x. seek_from fuel size 0 x.0 x.1) stays
    ∙ seek_from-none fuel f.root_cluster i f e some_bytes small
