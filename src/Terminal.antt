-- ===== src/Terminal.antt =====
-- kernel/Core/Terminal.cpp; Format has `Print`. `vmem` is the text screen's memory, 4000 bytes
-- from 0x800b8000 on, as a function of the offset; `buffer` holds what was put into the buffer, if one is
-- set.
pub mod Cursor
pub mod Format
mod Tests
use baby_osv.Base.{
  ℕ, zero, suc, ◌+◌, ◌-◌, ◌*◌, ◌/◌, ◌%◌, Bool, true, false, ◌&&◌, Option, none, some, List, [], ◌∷◌,
  ◌++◌, ltb, leb, ◌==◌, if◌then◌else◌, update, replicate, add32, sub32,
}

pub record Terminal : Type 0 where
  pub vmem : ℕ → ℕ
  pub buffer : Option (List ℕ)
  pub cursor_x : ℕ
  pub cursor_y : ℕ
  pub color : ℕ

-- The memory is cleared without the cursor's help.
unfoldable pub init : (ℕ → ℕ) → Terminal
init vmem = record {
  vmem = λ o. if ltb o 4000 then 0 else vmem o;
  buffer = none;
  cursor_x = 0;
  cursor_y = 0;
  color = 0x07;
}

abbrev pub cursor_to_buffer : Terminal → ℕ
cursor_to_buffer t = t.cursor_y * 160 + t.cursor_x * 2

abbrev pub newline : Terminal → Terminal
newline t = record t { cursor_y = add32 t.cursor_y 1; cursor_x = 0 }

abbrev pub step_back : Terminal → Terminal
step_back t =
    if ltb 0 t.cursor_x
    then record t { cursor_x = sub32 t.cursor_x 1 }
    else if ltb 0 t.cursor_y
    then record t { cursor_y = sub32 t.cursor_y 1; cursor_x = 79 }
    else t

abbrev pub erase : Terminal → Terminal
erase t = record t { vmem = update t.vmem (cursor_to_buffer t) 0 }

abbrev pub tab : Terminal → Terminal
tab t = let x = add32 t.cursor_x 8 in record t { cursor_x = sub32 x (x % 8) }

-- All lines move up by one, and 0x0700 fills the last.
abbrev pub scrolled : (ℕ → ℕ) → ℕ → ℕ
scrolled vmem o =
    if ltb o 3840
    then vmem (o + 160)
    else if ltb o 4000
    then (if o % 2 == 0 then 0 else 0x07)
    else vmem o

abbrev pub scroll : Terminal → Terminal
scroll t =
    if ltb 24 t.cursor_y
    then record t { vmem = scrolled t.vmem; cursor_y = sub32 t.cursor_y 1 }
    else t

abbrev pub advance : Terminal → Terminal
advance t =
    let x = add32 t.cursor_x 1 in
    if leb 80 x
    then record t { cursor_x = 0; cursor_y = add32 t.cursor_y 1 }
    else record t { cursor_x = x }

abbrev pub write : ℕ → Terminal → Terminal
write c t = advance (record t {
  vmem = update (update t.vmem (cursor_to_buffer t) c) (cursor_to_buffer t + 1) t.color;
})

-- `PutChar` on the screen.
unfoldable pub put_on_screen : ℕ → Terminal → ℕ × Terminal
put_on_screen c t =
    if c == b'\n'
    then (0, scroll (newline t))
    else if c == 8
    then (0, erase (step_back t))
    else if c == b'\r'
    then (0, record t { cursor_x = 0 })
    else if c == b'\t'
    then (0, scroll (tab t))
    else (1, write c (scroll t))

unfoldable pub put_char : ℕ → Terminal → ℕ × Terminal
unfolding put_on_screen
put_char c t = elim t.buffer [
  | some written ↦ (1, record t { buffer = some (written ++ (c ∷ [])) })
  | none ↦ put_on_screen c t
]

unfoldable pub put_string : List ℕ → Terminal → ℕ × Terminal
unfolding put_char
put_string [] t = (0, t)
put_string (c ∷ s) t =
    let (n, t1) = put_char c t in let (m, t2) = put_string s t1 in (add32 n m, t2)

abbrev pub get_xy : Terminal → ℕ × ℕ
get_xy t = (t.cursor_x, t.cursor_y)

unfoldable pub set_xy : ℕ → ℕ → Terminal → Terminal
set_xy x y t = record t { cursor_x = x; cursor_y = y }

-- The foreground and the background.
unfoldable pub get_color : Terminal → ℕ × ℕ
get_color t = (t.color % 16, t.color / 16 % 16)

unfoldable pub set_color : ℕ → ℕ → Terminal → Terminal
set_color fg bg t = record t { color = bg % 16 * 16 + fg % 16 }

unfoldable pub clear : Terminal → Terminal
unfolding set_xy put_string
clear t = (put_string (replicate 2000 b' ') (set_xy 0 0 t)).1
