-- ===== src/Display.antt =====
-- The text console on the display, src/kernel/drivers/console/bochs.c: glyphs, the cursor, scrolling
-- and control characters. The frame buffer is words of 32 bits from `fb_base` on, 1024 to a line and
-- 768 lines; what stands behind it is part of the map, since `scroll` reaches it. The memory there is
-- taken to be writable, up to line 6136: the code maps only what the device says, and where that is
-- less, the kernel faults in `scroll`. The font,
-- src/lib/font.c, is a parameter that gives the 8 rows of a character as bytes. The set-up of the
-- device is left out.
pub mod Glyph
pub mod Cursor
pub mod Text
pub mod Scroll
mod Tests
use rv_mini_os.Prelude.{
  ℕ, zero, suc, ◌+◌, ◌-◌, ◌*◌, ◌/◌, ◌%◌, ◌^◌, Bool, true, false, ◌&&◌, ◌||◌, List, [], ◌∷◌, ◌++◌,
  ◌==◌, ltb, leb, if◌then◌else◌, update, length,
}
use rv_mini_os.Err.{Result, ok, err, einval}

-- `DISPLAY_WIDTH`, `DISPLAY_HEIGHT`, `MAX_COLS` and `MAX_ROWS`
abbrev pub display_width : ℕ
display_width = 1024

abbrev pub display_height : ℕ
display_height = 768

abbrev pub max_cols : ℕ
max_cols = 128

abbrev pub max_rows : ℕ
max_rows = 96

abbrev pub bg_color : ℕ
bg_color = 0

abbrev pub text_color : ℕ
text_color = 0xFFFFFF

-- `mapped` is whether `fb_base` is set, and `sent` is what the UART was given.
pub record Screen : Type 0 where
  pub mapped : Bool
  pub fb : ℕ → ℕ
  pub cursor_row : ℕ
  pub cursor_col : ℕ
  pub sent : List ℕ

abbrev pub Font : Type 0
Font = ℕ → ℕ → ℕ

unfoldable pub pixel : (x y color : ℕ) → Screen → Result ℕ × Screen
pixel x y color s =
    if leb display_width x || leb display_height y
    then (err einval, s)
    else (ok 0, record s { fb = update s.fb (y * display_width + x) color })

abbrev pub and_then : Result ℕ × Screen → (Screen → Result ℕ × Screen) → Result ℕ × Screen
and_then (ok n, s) f = f s
and_then (err e, s) f = (err e, s)

-- the color of column `c_off` of a glyph's row
unfoldable pub dot : (bits c_off color bg : ℕ) → ℕ
dot bits c_off color bg = if bits / 2 ^ c_off % 2 == 1 then color else bg

-- the inner loop of `write_char`, with the rounds that are left
unfoldable pub write_row : (rounds c_off bits x y color bg : ℕ) → Screen → Result ℕ × Screen
write_row zero c_off bits x y color bg s = (ok 0, s)
write_row (suc rounds) c_off bits x y color bg s =
    and_then (pixel (x + c_off) y (dot bits c_off color bg) s)
      (λ s1. write_row rounds (c_off + 1) bits x y color bg s1)

-- the outer loop
unfoldable pub write_rows : Font → (rounds row_off c x y color bg : ℕ) → Screen → Result ℕ × Screen
write_rows font zero row_off c x y color bg s = (ok 0, s)
write_rows font (suc rounds) row_off c x y color bg s =
    and_then (write_row 8 0 (font c row_off) x (y + row_off) color bg s)
      (λ s1. write_rows font rounds (row_off + 1) c x y color bg s1)

-- The position is one of 32 bits.
unfoldable pub write_char : Font → (row col c color bg : ℕ) → Screen → Result ℕ × Screen
write_char font row col c color bg s =
    write_rows font 8 0 c (col * 8 % 2 ^ 32) (row * 8 % 2 ^ 32) color bg s

-- the loop of `draw_line`, which takes no notice of errors
unfoldable pub draw_dots : (rounds offset row col color : ℕ) → Screen → Screen
draw_dots zero offset row col color s = s
draw_dots (suc rounds) offset row col color s =
    draw_dots rounds (offset + 1) row col color (pixel (col + offset) row color s).1

unfoldable pub draw_line : (row col color : ℕ) → Screen → Screen
draw_line row col color s = draw_dots 8 0 row col color s

unfoldable pub draw_cursor : Screen → Screen
draw_cursor s = draw_line (s.cursor_row * 8 + 7) (s.cursor_col * 8) text_color s

unfoldable pub undraw_cursor : Screen → Screen
undraw_cursor s = draw_line (s.cursor_row * 8 + 7) (s.cursor_col * 8) bg_color s

-- `memmove` to a lower address, by words
abbrev pub moved_down : (n shift : ℕ) → (ℕ → ℕ) → ℕ → ℕ
moved_down n shift fb i = if ltb i n then fb (i + shift) else fb i

-- `memset`, by words
abbrev pub filled : (from n color : ℕ) → (ℕ → ℕ) → ℕ → ℕ
filled from n color fb i = if leb from i && ltb i (from + n) then color else fb i

-- A row of `display_base` is 8 lines of the screen.
unfoldable pub scroll : Screen → Screen
scroll s = record s {
  fb =
      filled ((display_height - 1) * (display_width * 8)) display_width bg_color
        (moved_down ((display_height - 1) * display_width) (display_width * 8) s.fb);
}

-- The loop of `set_cursor` on fuel: the row where it stops, and the screen.
unfoldable pub scroll_loop : (fuel row : ℕ) → Screen → ℕ × Screen
scroll_loop zero row s = (row, s)
scroll_loop (suc fuel) row s =
    let rest = scroll_loop fuel (row - 1) (scroll s) in if leb max_rows row then rest else (row, s)

-- No caller gives a negative row. `row` rounds are enough. The position is kept in bytes.
unfoldable pub set_cursor : (row col : ℕ) → Screen → Screen
set_cursor row col s =
    let (r, s1) = scroll_loop row row (undraw_cursor s) in
    draw_cursor (record s1 { cursor_row = r % 2 ^ 8; cursor_col = col % 2 ^ 8 })

unfoldable pub advance_cursor : Screen → Screen
advance_cursor s =
    if ltb (s.cursor_col + 1) max_cols
    then set_cursor s.cursor_row (s.cursor_col + 1) s
    else set_cursor (s.cursor_row + 1) 0 s

unfoldable pub put_char : Font → (c : ℕ) → Screen → Screen
put_char font c s =
    advance_cursor (write_char font s.cursor_row s.cursor_col c text_color bg_color s).1

-- the loops of `clear_screen` over a line and over the lines
unfoldable pub clear_line : (rounds x y : ℕ) → Screen → Screen
clear_line zero x y s = s
clear_line (suc rounds) x y s = clear_line rounds (x + 1) y (pixel x y bg_color s).1

unfoldable pub clear_lines : (rounds y : ℕ) → Screen → Screen
clear_lines zero y s = s
clear_lines (suc rounds) y s = clear_lines rounds (y + 1) (clear_line display_width 0 y s)

unfoldable pub clear_screen : Screen → Screen
clear_screen s = set_cursor 1 0 (clear_lines display_height 0 s)

-- `(-cursor_col) & 7`
unfoldable pub tab : Screen → Screen
tab s =
    let distance = (8 - s.cursor_col % 8) % 8 in
    if leb max_cols (distance + s.cursor_col)
    then set_cursor (s.cursor_row + 1) 0 s
    else set_cursor s.cursor_row (s.cursor_col + distance) s

unfoldable pub backspace : Screen → Screen
backspace s = if ltb 0 s.cursor_col then set_cursor s.cursor_row (s.cursor_col - 1) s else s

unfoldable pub newline : Screen → Screen
newline s = set_cursor (s.cursor_row + 1) 0 s

unfoldable pub carriage_return : Screen → Screen
carriage_return s = set_cursor s.cursor_row 0 s

unfoldable pub handle_char : Font → (c : ℕ) → Screen → Screen
handle_char font c s =
    if leb 32 c && ltb c 127
    then put_char font c s
    else if c == 8
    then backspace s
    else if c == 9
    then tab s
    else if c == 10
    then newline s
    else if c == 12
    then clear_screen s
    else if c == 13
    then carriage_return s
    else s

unfoldable pub console_putbytes : Font → List ℕ → Screen → Screen
console_putbytes font [] s = s
console_putbytes font (c ∷ cs) s =
    let s1 = record s { sent = s.sent ++ c ∷ [] } in
    console_putbytes font cs (if s1.mapped then handle_char font c s1 else s1)

abbrev pub drop : ℕ → List ℕ → List ℕ
drop zero cs = cs
drop (suc n) [] = []
drop (suc n) (c ∷ cs) = drop n cs

unfoldable pub write_chars : Font → (col : ℕ) → List ℕ → Screen → Screen
write_chars font col [] s = s
write_chars font col (c ∷ cs) s =
    write_chars font (col + 1) cs (write_char font 0 col c text_color bg_color s).1

unfoldable pub console_display_top_right : Font → List ℕ → Screen → Screen
console_display_top_right font cs s =
    let shown = if ltb max_cols (length cs) then drop (length cs - max_cols) cs else cs in
    if s.mapped then write_chars font (max_cols - length shown) shown s else s
