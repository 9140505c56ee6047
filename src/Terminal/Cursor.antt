-- ===== src/Terminal/Cursor.antt =====
-- Where the cursor goes and what `PutChar` writes.
use native.Mathlib.Decide.{dec_lt}
use baby_osv.Base.{
  ℕ, ◌+◌, ◌*◌, ◌%◌, ◌≤◌, ◌<◌, ◌≡◌, refl, ap, ap₂, lt→ltb, ◌∙◌, ◌≢◌, inl, inr, true, false, none,
  List, [], ◌∷◌, ltb, leb, ◌==◌, arith, update, Bool-cases, add32,
}
use baby_osv.Terminal.{
  Terminal, put_on_screen, put_char, put_string, get_color, set_color, newline, step_back, erase,
  scroll, write,
}

-- The cursor is on the screen, or at the start of the line below it.
pub record IsOnScreen (t : Terminal) : Type 0 where
  pub column : t.cursor_x < 80
  pub line : t.cursor_y ≤ 25
  pub below : t.cursor_y ≡ 25 → t.cursor_x ≡ 0

-- What a call must not do: write behind the screen's memory, or lose the cursor.
pub record Confined (t s : Terminal) : Type 0 where
  pub on_screen : IsOnScreen s
  pub outside : (o : ℕ) → 4000 ≤ o → s.vmem o ≡ t.vmem o
  pub same_buffer : s.buffer ≡ t.buffer

newline-Confined : (t : Terminal) → IsOnScreen t → Confined t (scroll (newline t))
newline-Confined t v = elim (dec_lt 24 (add32 t.cursor_y 1)) [
  | yes p ↦ rw (lt→ltb 24 (add32 t.cursor_y 1) p) (record {
    on_screen = record { column = omega arith; line = omega (arith, v.line); below = λ e. refl };
    outside = λ o l. ground arith;
    same_buffer = refl;
  })
  | no q ↦
      let test : ltb 24 (add32 t.cursor_y 1) ≡ false = ground arith in
      rw test (record {
        on_screen = record {
          column = omega arith;
          line = omega (arith, v.line);
          below = λ e. refl;
        };
        outside = λ o l. refl;
        same_buffer = refl;
      })
]

erase-Confined : (t : Terminal) → IsOnScreen t → Confined t (erase (step_back t))
unfolding update
erase-Confined t v = elim (dec_lt 0 t.cursor_x) [
  | yes p ↦ rw (lt→ltb 0 t.cursor_x p) (record {
    on_screen = record {
      column = omega (arith, v.column);
      line = v.line;
      below = λ e. omega (arith, v.below e);
    };
    outside = λ o l. ground (arith, v.column, v.line, v.below);
    same_buffer = refl;
  })
  | no q ↦
      let left : ltb 0 t.cursor_x ≡ false = ground arith in
      elim (dec_lt 0 t.cursor_y) [
        | yes p ↦
            rw (left, lt→ltb 0 t.cursor_y p)
              (record {
                on_screen = record {
                  column = omega arith;
                  line = omega (arith, v.line);
                  below = λ e. absurd (omega (arith, v.line, e));
                };
                outside = λ o l. ground (arith, v.line);
                same_buffer = refl;
              })
        | no r ↦
            let top : ltb 0 t.cursor_y ≡ false = ground arith in
            rw (left, top)
              (record {
                on_screen = record { column = v.column; line = v.line; below = v.below };
                outside = λ o l. ground arith;
                same_buffer = refl;
              })
      ]
]

scroll-Confined : (t : Terminal) → IsOnScreen t → Confined t (scroll t) × ((scroll t).cursor_y ≤ 24)
scroll-Confined t v = elim (dec_lt 24 t.cursor_y) [
  | yes p ↦ rw (lt→ltb 24 t.cursor_y p) (
    record {
      on_screen = record {
        column = v.column;
        line = omega (arith, v.line);
        below = λ e. absurd (omega (arith, v.line, e));
      };
      outside = λ o l. ground arith;
      same_buffer = refl;
    },
    omega (arith, v.line),
  )
  | no q ↦
      let test : ltb 24 t.cursor_y ≡ false = ground arith in
      rw test (record { on_screen = v; outside = λ o l. refl; same_buffer = refl }, omega arith)
]

write_lem : (c : ℕ) (t : Terminal) → IsOnScreen t → t.cursor_y ≤ 24 → Confined t (write c t)
unfolding update
write_lem c t v high = elim (dec_lt 79 (add32 t.cursor_x 1)) [
  | yes p ↦
      let test : leb 80 (add32 t.cursor_x 1) ≡ true = ground arith in
      rw test (record {
        on_screen = record { column = omega arith; line = omega arith; below = λ e. refl };
        outside = λ o l. ground (arith, v.column);
        same_buffer = refl;
      })
  | no q ↦
      let test : leb 80 (add32 t.cursor_x 1) ≡ false = ground arith in
      rw test (record {
        on_screen = record {
          column = omega (arith, v.column);
          line = omega arith;
          below = λ e. absurd (omega (arith, e));
        };
        outside = λ o l. ground (arith, v.column);
        same_buffer = refl;
      })
]

Confined-trans : {t s r : Terminal} → Confined t s → Confined s r → Confined t r
Confined-trans a b = record {
  on_screen = b.on_screen;
  outside = λ o l. b.outside o l ∙ a.outside o l;
  same_buffer = b.same_buffer ∙ a.same_buffer;
}

write-Confined : (c : ℕ) (t : Terminal) → IsOnScreen t → Confined t (write c (scroll t))
write-Confined c t v =
    let (scrolls, high) = scroll-Confined t v in
    Confined-trans scrolls (write_lem c (scroll t) scrolls.on_screen high)

return-Confined : (t : Terminal) → IsOnScreen t → Confined t (record t { cursor_x = 0 })
return-Confined t v = record {
  on_screen = record { column = omega arith; line = v.line; below = λ e. refl };
  outside = λ o l. refl;
  same_buffer = refl;
}

put_on_screen-Confined :
    (c : ℕ) (t : Terminal) → c ≢ b'\t' → IsOnScreen t → Confined t (put_on_screen c t).1
unfolding put_on_screen
put_on_screen-Confined c t plain v = elim (Bool-cases (c == b'\n')) [
  | inl e ↦ rw e (newline-Confined t v)
  | inr n ↦ elim (Bool-cases (c == 8)) [
    | inl e ↦ rw (n, e) (erase-Confined t v)
    | inr b ↦ elim (Bool-cases (c == b'\r')) [
      | inl e ↦ rw (n, b, e) (return-Confined t v)
      | inr r ↦
          let no_tab : (c == b'\t') ≡ false = ground arith in
          rw (n, b, r, no_tab) (write-Confined c t v)
    ]
  ]
]

put_char_screen : (c : ℕ) (t : Terminal) → t.buffer ≡ none → put_char c t ≡ put_on_screen c t
unfolding put_char
put_char_screen c t e = rw e refl

abbrev pub NoTab : List ℕ → Type 0
NoTab [] = Unit {0}
NoTab (c ∷ s) = (c ≢ b'\t') × NoTab s

-- If no buffer is set, the cursor is on the screen or at the start of the line below it, and the string
-- has no tab, `PutString` leaves the cursor in such a place and writes nothing outside the screen's 4000
-- bytes.
pub put_string-Confined :
    (s : List ℕ) (t : Terminal)
    → t.buffer ≡ none
    → NoTab s
    → IsOnScreen t
    → Confined t (put_string s t).1
unfolding put_string
put_string-Confined [] t e h v = record { on_screen = v; outside = λ o l. refl; same_buffer = refl }
put_string-Confined (c ∷ s) t e (plain, h) v =
    let first : Confined t (put_char c t).1 =
      rw (put_char_screen c t e) (put_on_screen-Confined c t plain v) in
    Confined-trans first
      (put_string-Confined s (put_char c t).1 (first.same_buffer ∙ e) h first.on_screen)

-- A character that `PutChar` does not handle.
abbrev pub IsPlain : ℕ → Type 0
IsPlain c = (c ≢ b'\n') × (c ≢ 8) × (c ≢ b'\r') × (c ≢ b'\t')

tab_lem :
    (t : Terminal)
    → 72 ≤ t.cursor_x
    → t.cursor_x < 80
    → t.cursor_y ≤ 24
    → (put_on_screen b'\t' t).1 ≡ record t { cursor_x = 80 }
unfolding put_on_screen
tab_lem t far near high =
    let stays : ltb 24 t.cursor_y ≡ false = ground arith in
    rw stays (ap (λ (x : ℕ). record t { cursor_x = x }) (omega arith))

plain_lem :
    (c : ℕ) (t : Terminal) → IsPlain c → t.cursor_y ≤ 24 → put_on_screen c t ≡ (1, write c t)
unfolding put_on_screen
plain_lem c t (n, b, r, h) high =
    let stays : ltb 24 t.cursor_y ≡ false = ground arith in
    let not_n : (c == b'\n') ≡ false = ground arith in
    let not_b : (c == 8) ≡ false = ground arith in
    let not_r : (c == b'\r') ≡ false = ground arith in
    let not_t : (c == b'\t') ≡ false = ground arith in rw (not_n, not_b, not_r, not_t, stays) refl

write_at_80 :
    (c : ℕ) (t : Terminal)
    → t.cursor_y ≤ 24
    → ((write c (record t { cursor_x = 80 })).vmem ((t.cursor_y + 1) * 160) ≡ c)
      × ((write c (record t { cursor_x = 80 })).cursor_x ≡ 0)
      × ((write c (record t { cursor_x = 80 })).cursor_y ≡ t.cursor_y + 1)
unfolding update
write_at_80 c t high = (ground arith, refl, omega arith)

-- After a tab in the last eight columns, the next plain character is written to the first column of the
-- line below, behind the screen's memory if the line was the last, and the cursor is then on that column
-- itself, so the character after it overwrites it.
pub tab_runs_over :
    (c : ℕ) (t : Terminal)
    → IsPlain c
    → 72 ≤ t.cursor_x
    → t.cursor_x < 80
    → t.cursor_y ≤ 24
    → ((put_on_screen c (put_on_screen b'\t' t).1).1.vmem ((t.cursor_y + 1) * 160) ≡ c)
      × ((put_on_screen c (put_on_screen b'\t' t).1).1.cursor_x ≡ 0)
      × ((put_on_screen c (put_on_screen b'\t' t).1).1.cursor_y ≡ t.cursor_y + 1)
tab_runs_over c t plain far near high =
    rw (tab_lem t far near high, plain_lem c (record t { cursor_x = 80 }) plain high)
      (write_at_80 c t high)

-- `GetColor` gives back the lower four bits of what `SetColor` was given.
pub get_color-set_color :
    (fg bg : ℕ) (t : Terminal) → get_color (set_color fg bg t) ≡ (fg % 16, bg % 16)
unfolding get_color set_color
get_color-set_color fg bg t = ap₂ (λ a b. (a, b)) (omega arith) (omega arith)
