-- ===== src/Display/Cursor.antt =====
-- Where the cursor of the text console is.
use rv_mini_os.Prelude.{
  ℕ, zero, suc, ◌+◌, ◌-◌, ◌*◌, ◌%◌, ◌≤◌, ◌<◌, ◌≡◌, refl, ◌∙◌, arith, ltb, leb, if◌then◌else◌,
  Bool-cases, inl, inr,
}
use rv_mini_os.Err.{Result, ok, err}
use rv_mini_os.Display.{
  Screen, Font, and_then, pixel, write_row, write_rows, draw_dots, draw_line, draw_cursor,
  undraw_cursor, scroll, scroll_loop, set_cursor, clear_line, clear_lines, dot,
}

pub record Position : Type 0 where
  pub row : ℕ
  pub col : ℕ

abbrev pub cursor : Screen → Position
cursor s = record { row = s.cursor_row; col = s.cursor_col }

-- The state but for the frame buffer is kept.
pub record Keeps (s s' : Screen) : Type 0 where
  pub same_cursor : cursor s' ≡ cursor s
  pub same_mapped : s'.mapped ≡ s.mapped
  pub same_sent : s'.sent ≡ s.sent

pub Keeps-refl : (s : Screen) → Keeps s s
Keeps-refl s = record { same_cursor = refl; same_mapped = refl; same_sent = refl }

pub Keeps-trans : {a b c : Screen} → Keeps a b → Keeps b c → Keeps a c
Keeps-trans h g = record {
  same_cursor = g.same_cursor ∙ h.same_cursor;
  same_mapped = g.same_mapped ∙ h.same_mapped;
  same_sent = g.same_sent ∙ h.same_sent;
}

pixel-Keeps : (x y color : ℕ) (s : Screen) → Keeps s (pixel x y color s).1
unfolding pixel
pixel-Keeps x y color s = ground arith

and_then-Keeps :
    (s : Screen) (r : Result ℕ × Screen) (f : Screen → Result ℕ × Screen)
    → Keeps s r.1
    → ((s' : Screen) → Keeps s' (f s').1)
    → Keeps s (and_then r f).1
and_then-Keeps s (ok n, s1) f h g = Keeps-trans h (g s1)
and_then-Keeps s (err e, s1) f h g = h

write_row-Keeps :
    (rounds c_off bits x y color bg : ℕ) (s : Screen)
    → Keeps s (write_row rounds c_off bits x y color bg s).1
unfolding write_row
write_row-Keeps zero c_off bits x y color bg s = Keeps-refl s
write_row-Keeps (suc rounds) c_off bits x y color bg s =
    and_then-Keeps s (pixel (x + c_off) y (dot bits c_off color bg) s)
      (λ s1. write_row rounds (c_off + 1) bits x y color bg s1)
      (pixel-Keeps (x + c_off) y (dot bits c_off color bg) s)
      (λ s1. write_row-Keeps rounds (c_off + 1) bits x y color bg s1)

pub write_rows-Keeps :
    (font : Font) (rounds row_off c x y color bg : ℕ) (s : Screen)
    → Keeps s (write_rows font rounds row_off c x y color bg s).1
unfolding write_rows
write_rows-Keeps font zero row_off c x y color bg s = Keeps-refl s
write_rows-Keeps font (suc rounds) row_off c x y color bg s =
    and_then-Keeps s (write_row 8 0 (font c row_off) x (y + row_off) color bg s)
      (λ s1. write_rows font rounds (row_off + 1) c x y color bg s1)
      (write_row-Keeps 8 0 (font c row_off) x (y + row_off) color bg s)
      (λ s1. write_rows-Keeps font rounds (row_off + 1) c x y color bg s1)

draw_dots-Keeps :
    (rounds offset row col color : ℕ) (s : Screen)
    → Keeps s (draw_dots rounds offset row col color s)
unfolding draw_dots
draw_dots-Keeps zero offset row col color s = Keeps-refl s
draw_dots-Keeps (suc rounds) offset row col color s =
    Keeps-trans (pixel-Keeps (col + offset) row color s)
      (draw_dots-Keeps rounds (offset + 1) row col color (pixel (col + offset) row color s).1)

clear_line-Keeps : (rounds x y : ℕ) (s : Screen) → Keeps s (clear_line rounds x y s)
unfolding clear_line
clear_line-Keeps zero x y s = Keeps-refl s
clear_line-Keeps (suc rounds) x y s =
    Keeps-trans (pixel-Keeps x y 0 s) (clear_line-Keeps rounds (x + 1) y (pixel x y 0 s).1)

pub clear_lines-Keeps : (rounds y : ℕ) (s : Screen) → Keeps s (clear_lines rounds y s)
unfolding clear_lines
clear_lines-Keeps zero y s = Keeps-refl s
clear_lines-Keeps (suc rounds) y s =
    Keeps-trans (clear_line-Keeps 1024 0 y s)
      (clear_lines-Keeps rounds (y + 1) (clear_line 1024 0 y s))

scroll-Keeps : (s : Screen) → Keeps s (scroll s)
unfolding scroll
scroll-Keeps s = record { same_cursor = refl; same_mapped = refl; same_sent = refl }

-- The row where the loop stops, with fuel for each row.
abbrev pub stop_row : ℕ → ℕ
stop_row row = if ltb row 96 then row else 95

scroll_loop-stops :
    (fuel row : ℕ) (s : Screen)
    → row ≤ fuel
    → ((scroll_loop fuel row s).0 ≡ stop_row row) × Keeps s (scroll_loop fuel row s).1
unfolding scroll_loop
scroll_loop-stops zero row s h = (ground arith, Keeps-refl s)
scroll_loop-stops (suc fuel) row s h = elim (Bool-cases (leb 96 row)) [
  | inl below ↦
      let rest = scroll_loop-stops fuel (row - 1) (scroll s) (omega arith) in
      rw below (rest.0 ∙ ground arith, Keeps-trans (scroll-Keeps s) rest.1)
  | inr above ↦ rw above (ground arith, Keeps-refl s)
]

-- The cursor is at a position, and the state but for the frame buffer is kept.
pub record Moves (s s' : Screen) (p : Position) : Type 0 where
  pub at_position : cursor s' ≡ p
  pub same_mapped : s'.mapped ≡ s.mapped
  pub same_sent : s'.sent ≡ s.sent

pub Keeps-Moves : {a b c : Screen} {p : Position} → Keeps a b → Moves b c p → Moves a c p
Keeps-Moves h m = record {
  at_position = m.at_position;
  same_mapped = m.same_mapped ∙ h.same_mapped;
  same_sent = m.same_sent ∙ h.same_sent;
}

Moves-Keeps : {a b c : Screen} {p : Position} → Moves a b p → Keeps b c → Moves a c p
Moves-Keeps m h = record {
  at_position = h.same_cursor ∙ m.at_position;
  same_mapped = h.same_mapped ∙ m.same_mapped;
  same_sent = h.same_sent ∙ m.same_sent;
}

draw_cursor-Keeps : (s : Screen) → Keeps s (draw_cursor s)
unfolding draw_cursor draw_line
draw_cursor-Keeps s = draw_dots-Keeps 8 0 (s.cursor_row * 8 + 7) (s.cursor_col * 8) 0xFFFFFF s

undraw_cursor-Keeps : (s : Screen) → Keeps s (undraw_cursor s)
unfolding undraw_cursor draw_line
undraw_cursor-Keeps s = draw_dots-Keeps 8 0 (s.cursor_row * 8 + 7) (s.cursor_col * 8) 0 s

pub set_cursor-Moves :
    (row col : ℕ) (s : Screen)
    → col < 128
    → Moves s (set_cursor row col s) (record { row = stop_row row; col = col })
unfolding set_cursor
set_cursor-Moves row col s h =
    let scrolled = scroll_loop-stops row row (undraw_cursor s) (omega arith) in
    let (r, s1) = scroll_loop row row (undraw_cursor s) in
    let placed = record s1 { cursor_row = r % 256; cursor_col = col % 256 } in
    let row_is : r % 256 ≡ stop_row row = ground (arith, scrolled.0) in
    let col_is : col % 256 ≡ col = omega arith in
    Moves-Keeps
      (Keeps-Moves (undraw_cursor-Keeps s) (record {
        at_position = λ i. record { row = row_is i; col = col_is i };
        same_mapped = scrolled.1.same_mapped;
        same_sent = scrolled.1.same_sent;
      }))
      (draw_cursor-Keeps placed)
