-- ===== src/Fat/Stream.antt =====
-- Files in kernel/FS/FAT.cpp: `FileRead`, `FileSetPointer` and `FileGetPointer`.
pub mod Amount
pub mod Moves
pub mod Seeking
mod Tests
use baby_osv.Base.{
  ℕ, zero, suc, ◌+◌, ◌-◌, ◌*◌, ◌/◌, ◌%◌, Bool, true, false, ◌&&◌, ◌||◌, not, Option, none, some,
  List, [], ◌∷◌, ◌++◌, ltb, leb, ◌==◌, if◌then◌else◌, length, min, add32, sub32,
}
use baby_osv.Base.Outcome.{Outcome, ok, halted, fault}
use baby_osv.Fat.Table.{get_next_cluster}
use baby_osv.Fat.Volume.{Info, get_cache, free_cache}
use baby_osv.Fat.Directory.{buffer_of, buffer_size_of}
use baby_osv.Fat.File.{File, go_to}

-- What `FileRead` gives back: whether the status is `Success` and not `EndOfFile`, the bytes in the order
-- of the buffer, which `readCount` counts, and the state.
pub record Read : Type 0 where
  pub success : Bool
  pub bytes : List ℕ
  pub info : Info
  pub file : File

abbrev pub end_of_file : Info → File → Read
end_of_file i f = record { success = false; bytes = []; info = i; file = f }

-- The object that holds the next byte; `none` is `Status::EndOfFile`. A file without an object that is not
-- at its start makes the code read through `nullptr`.
abbrev pub object_at : Option ℕ → Info → File → Outcome (Option (Info × File))
object_at none i f =
    if ltb 0 f.total_offset
    then fault
    else ok (some (get_cache f.root_cluster i, record f { cache = some f.root_cluster }))
object_at (some c) i f =
    if f.total_offset % buffer_size_of i c == 0
    then (if ltb 0 f.total_offset
        then (let next = get_next_cluster i.type i.fat c in
            if next == 0 then ok none else ok (some (go_to c next i f)))
        else ok (some (get_cache f.root_cluster i, record f { cache = some f.root_cluster })))
    else ok (some (i, f))

-- The loop that copies `count` more bytes from the object's buffer.
unfoldable pub copy_out : ℕ → (ℕ → ℕ) → ℕ → File → List ℕ × File
copy_out zero buffer offset f = ([], f)
copy_out (suc count) buffer offset f =
    let rest =
      copy_out count buffer (offset + 1) (record f { total_offset = add32 f.total_offset 1 }) in
    if leb f.total_size f.total_offset then ([], f) else (buffer offset ∷ rest.0, rest.1)

abbrev pub copied : Info → List ℕ × File → Read
copied i ([], f) = end_of_file i f
copied i (b ∷ bs, f) = record { success = true; bytes = b ∷ bs; info = i; file = f }

-- A call that reads into the rest of the buffer.
abbrev pub Reader : Type 0
Reader = ℕ → Info → File → Option (Outcome Read)

-- The next round, or the status and the bytes at the end of the loop.
abbrev pub proceed :
    Bool
    → List ℕ
    → ℕ
    → Read
    → (List ℕ → ℕ → Info → File → Option (Outcome Read))
    → Option (Outcome Read)
proceed true bytes left r again = again (bytes ++ r.bytes) (left - length r.bytes) r.info r.file
proceed false bytes left r again =
    some (ok (record r { success = ltb 0 (length (bytes ++ r.bytes)); bytes = bytes ++ r.bytes }))

-- One more call's result behind the bytes that are read; `again` is the next round, for the bytes that are
-- left, where the call succeeds.
abbrev pub behind :
    List ℕ
    → ℕ
    → Option (Outcome Read)
    → (List ℕ → ℕ → Info → File → Option (Outcome Read))
    → Option (Outcome Read)
behind bytes left none again = none
behind bytes left (some halted) again = some halted
behind bytes left (some fault) again = some fault
behind bytes left (some (ok r)) again = proceed r.success bytes left r again

-- The loop over the calls that each read at most `in_buffer` bytes, for at most `rounds` rounds.
unfoldable pub read_parts : ℕ → Reader → ℕ → List ℕ → ℕ → Info → File → Option (Outcome Read)
read_parts rounds call in_buffer bytes zero i f =
    some (ok (record { success = true; bytes = bytes; info = i; file = f }))
read_parts zero call in_buffer bytes (suc left) i f = none
read_parts (suc rounds) call in_buffer bytes (suc left) i f =
    behind bytes (suc left) (call (min in_buffer (suc left)) i f)
      (λ more rest j g. read_parts rounds call in_buffer more rest j g)

-- The second part of `FileRead`, with the object in place.
abbrev pub read_from : Reader → ℕ → Option ℕ → Info → File → Option (Outcome Read)
read_from call size none i f = some fault
read_from call size (some c) i f =
    let buffer_size = buffer_size_of i c in
    let in_buffer = buffer_size - f.total_offset % buffer_size in
    if ltb in_buffer size
    then read_parts size call in_buffer [] size i f
    else some (ok (copied i (copy_out size (buffer_of i c) (f.total_offset % buffer_size) f)))

abbrev pub read_with :
    Reader → ℕ → Info → File → Outcome (Option (Info × File)) → Option (Outcome Read)
read_with call size i f halted = some halted
read_with call size i f fault = some fault
read_with call size i f (ok none) = some (ok (end_of_file i f))
read_with call size i f (ok (some (j, g))) = read_from call size g.cache j g

-- `FileRead` of `size` bytes, for calls of itself nested at most `fuel` deep.
unfoldable pub file_read : ℕ → ℕ → Info → File → Option (Outcome Read)
unfolding get_cache free_cache get_next_cluster buffer_of buffer_size_of copy_out read_parts
file_read zero size i f = none
file_read (suc fuel) size i f = elim (leb f.total_size f.total_offset) [
  | true ↦ some (ok (end_of_file i f))
  | false ↦ read_with (λ n j g. file_read fuel n j g) size i f (object_at f.cache i f)
]

-- The first part of `FileSetPointer`: back to the file's first cluster.
abbrev pub to_start : Option ℕ → Info → File → Info × File
to_start none i f = (i, f)
to_start (some c) i f = if c == f.root_cluster then (i, f) else go_to c f.root_cluster i f

-- The loop of `FileSetPointer`, for at most `fuel` rounds. `GetCache` never returns `nullptr`.
unfoldable pub seek_from : ℕ → ℕ → ℕ → Info → File → Option (Outcome (Info × File))
unfolding get_cache free_cache get_next_cluster buffer_size_of
seek_from zero offset a i f = none
seek_from (suc fuel) offset a i f = elim (ltb a offset) [
  | false ↦ some (ok (i, record f { total_offset = offset }))
  | true ↦ elim f.cache [
    | none ↦ some fault
    | some c ↦ elim (ltb (buffer_size_of i c) (sub32 offset a)) [
      | true ↦
          let (j, g) = go_to c (get_next_cluster i.type i.fat c) i f in
          seek_from fuel offset (add32 a (buffer_size_of i c)) j g
      | false ↦ seek_from fuel offset (add32 a (offset % buffer_size_of i c)) i f
    ]
  ]
]

-- `FileSetPointer`; its status is `Undefined` in every case.
unfoldable pub file_set_pointer : ℕ → ℕ → Info → File → Option (Outcome (Info × File))
unfolding seek_from get_cache free_cache
file_set_pointer fuel offset i f = let (j, g) = to_start f.cache i f in seek_from fuel offset 0 j g
