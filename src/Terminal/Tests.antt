-- ===== src/Terminal/Tests.antt =====
-- Runs of the terminal.
use baby_osv.Base.{refl, none, [], ◌∷◌, arith}
use baby_osv.Terminal.{Terminal, put_string}
use baby_osv.Terminal.Cursor.{IsOnScreen, Confined, put_string-Confined}

-- The cursor is in the last column of the last line.
abbrev corner : Terminal
corner = record { vmem = λ _. 0; buffer = none; cursor_x = 79; cursor_y = 24; color = 7 }

corner-IsOnScreen : IsOnScreen corner
corner-IsOnScreen = record {
  column = omega arith;
  line = omega arith;
  below = λ e. absurd (omega (arith, e));
}

put_string-Confined_example : Confined corner (put_string (b'a' ∷ b'b' ∷ []) corner).1
put_string-Confined_example =
    put_string-Confined (b'a' ∷ b'b' ∷ []) corner refl
      (λ e. absurd (omega (arith, e)), (λ e. absurd (omega (arith, e)), tt)) corner-IsOnScreen
