-- ===== src/Display/Glyph.antt =====
-- What a character looks like on the display, and what is kept.
use rv_mini_os.Prelude.{
  ℕ, zero, suc, ◌+◌, ◌-◌, ◌*◌, ◌%◌, ◌^◌, ◌≤◌, ◌<◌, ◌≡◌, refl, ap, ◌∙◌, Bool, false, ◌&&◌, ◌||◌,
  arith, ◌==◌, ltb, leb, if◌then◌else◌,
}
use rv_mini_os.Err.{Result, ok, err}
use rv_mini_os.Display.{Screen, Font, and_then, pixel, dot, write_row, write_rows, write_char}

-- the color at a column and a line
abbrev pub at_point : (x y : ℕ) → Screen → ℕ
at_point x y s = s.fb (y * 1024 + x)

abbrev pub within : (from n i : ℕ) → Bool
within from n i = leb from i && ltb i (from + n)

-- The call succeeds, and the colors are those of `picture`, line by line, also behind the last line.
pub record Paints (r : Result ℕ × Screen) (picture : (px py : ℕ) → ℕ) : Type 0 where
  pub succeeds : r.0 ≡ ok 0
  pub shows : (px py : ℕ) → px < 1024 → at_point px py r.1 ≡ picture px py

same_index :
    (x y px py : ℕ)
    → x < 1024
    → px < 1024
    → (py * 1024 + px == y * 1024 + x) ≡ ((py == y) && (px == x))
same_index x y px py h g = ground arith

pixel-Paints :
    (x y color : ℕ) (s : Screen)
    → x < 1024
    → y < 768
    → Paints
        (pixel x y color s)
        (λ px py. if (py == y) && (px == x) then color else at_point px py s)
unfolding pixel
pixel-Paints x y color s h g =
    let inside : (leb 1024 x || leb 768 y) ≡ false = ground arith in
    rw inside (record { succeeds = refl; shows = λ px py k. rw (same_index x y px py h k) refl })

-- A second call on the state of the first.
and_then-Paints :
    (r : Result ℕ × Screen) (f : Screen → Result ℕ × Screen) (p q : (px py : ℕ) → ℕ)
    → Paints r p
    → Paints (f r.1) q
    → Paints (and_then r f) q
and_then-Paints (ok n, s) f p q h g = g
and_then-Paints (err e, s) f p q h g = absurd (ground (arith, h.succeeds))

Paints-to :
    {r : Result ℕ × Screen} {p q : (px py : ℕ) → ℕ}
    → Paints r p
    → ((px py : ℕ) → px < 1024 → p px py ≡ q px py)
    → Paints r q
Paints-to h e = record { succeeds = h.succeeds; shows = λ px py k. h.shows px py k ∙ e px py k }

one_more_dot :
    (rounds c_off bits x y color bg px py v w : ℕ)
    → w ≡ (if (py == y) && (px == x + c_off) then dot bits c_off color bg else v)
    → (if (py == y) && within (x + (c_off + 1)) rounds px then dot bits (px - x) color bg else w)
      ≡ (if (py == y) && within (x + c_off) (suc rounds) px then dot bits (px - x) color bg else v)
one_more_dot rounds c_off bits x y color bg px py v w e =
    let same : px ≡ x + c_off → dot bits (px - x) color bg ≡ dot bits c_off color bg =
      λ f. ap (λ k. dot bits k color bg) (omega arith) in
    ground (arith, same)

one_more_row :
    (font : Font) (rounds row_off c x y color bg px py v w : ℕ)
    → w ≡ (
        if (py == y + row_off) && within (x + 0) 8 px
        then dot (font c row_off) (px - x) color bg
        else v)
    → (if within (y + (row_off + 1)) rounds py && within x 8 px
        then dot (font c (py - y)) (px - x) color bg
        else w)
      ≡ (if within (y + row_off) (suc rounds) py && within x 8 px
          then dot (font c (py - y)) (px - x) color bg
          else v)
one_more_row font rounds row_off c x y color bg px py v w e =
    let same : py ≡ y + row_off
        → dot (font c (py - y)) (px - x) color bg ≡ dot (font c row_off) (px - x) color bg =
      λ f. ap (λ k. dot (font c k) (px - x) color bg) (omega arith) in
    ground (arith, same)

write_row-Paints :
    (rounds c_off bits x y color bg : ℕ) (s : Screen)
    → x + c_off + rounds ≤ 1024
    → y < 768
    → Paints (write_row rounds c_off bits x y color bg s) (λ px py.
      if (py == y) && within (x + c_off) rounds px
      then dot bits (px - x) color bg
      else at_point px py s)
unfolding write_row
write_row-Paints zero c_off bits x y color bg s h g = record {
  succeeds = refl;
  shows = λ px py k. ground arith;
}
write_row-Paints (suc rounds) c_off bits x y color bg s h g =
    let first = pixel-Paints (x + c_off) y (dot bits c_off color bg) s (omega arith) g in
    let s1 = (pixel (x + c_off) y (dot bits c_off color bg) s).1 in
    let rest = write_row-Paints rounds (c_off + 1) bits x y color bg s1 (omega arith) g in
    and_then-Paints (pixel (x + c_off) y (dot bits c_off color bg) s)
      (λ s2. write_row rounds (c_off + 1) bits x y color bg s2) _ _ first
      (Paints-to rest (λ px py k.
        one_more_dot rounds c_off bits x y color bg px py (at_point px py s) (at_point px py s1)
          (first.shows px py k)))

write_rows-Paints :
    (font : Font) (rounds row_off c x y color bg : ℕ) (s : Screen)
    → x + 8 ≤ 1024
    → y + row_off + rounds ≤ 768
    → Paints (write_rows font rounds row_off c x y color bg s) (λ px py.
      if within (y + row_off) rounds py && within x 8 px
      then dot (font c (py - y)) (px - x) color bg
      else at_point px py s)
unfolding write_rows
write_rows-Paints font zero row_off c x y color bg s h g = record {
  succeeds = refl;
  shows = λ px py k. ground arith;
}
write_rows-Paints font (suc rounds) row_off c x y color bg s h g =
    let first =
      write_row-Paints 8 0 (font c row_off) x (y + row_off) color bg s (omega arith)
        (omega arith) in
    let s1 = (write_row 8 0 (font c row_off) x (y + row_off) color bg s).1 in
    let rest = write_rows-Paints font rounds (row_off + 1) c x y color bg s1 h (omega arith) in
    and_then-Paints (write_row 8 0 (font c row_off) x (y + row_off) color bg s)
      (λ s2. write_rows font rounds (row_off + 1) c x y color bg s2) _ _ first
      (Paints-to rest (λ px py k.
        one_more_row font rounds row_off c x y color bg px py (at_point px py s) (at_point px py s1)
          (first.shows px py k)))

-- At a row and a column of the text screen `write_char` succeeds. The 8 by 8 pixels of the character
-- have the color of the glyph where its bit in the font is set, and that of the background where it is
-- not; all other pixels stay, also those behind the last line.
pub write_char-Paints :
    (font : Font) (row col c color bg : ℕ) (s : Screen)
    → row < 96
    → col < 128
    → Paints (write_char font row col c color bg s) (λ px py.
      if within (row * 8) 8 py && within (col * 8) 8 px
      then dot (font c (py - row * 8)) (px - col * 8) color bg
      else at_point px py s)
unfolding write_char
write_char-Paints font row col c color bg s h g =
    let row_is : row * 8 % 2 ^ 32 ≡ row * 8 = omega arith in
    let col_is : col * 8 % 2 ^ 32 ≡ col * 8 = omega arith in
    rw (row_is, col_is)
      (Paints-to
        (write_rows-Paints font 8 0 c (col * 8) (row * 8) color bg s (omega arith) (omega arith))
        (λ px py k. ground arith))
