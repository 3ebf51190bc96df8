-- ===== src/Display/Tests.antt =====
-- The text console with a font of one glyph.
use rv_mini_os.Prelude.{
  ◌+◌, ◌-◌, ◌*◌, ◌≡◌, ◌&&◌, ◌++◌, refl, true, [], ◌∷◌, arith, if◌then◌else◌, ltb, ◌==◌,
}
use rv_mini_os.Display.{Screen, Font, dot, scroll, write_char, console_putbytes}
use rv_mini_os.Display.Cursor.{cursor}
use rv_mini_os.Display.Text.{OnScreen, after_all, console_putbytes-Follows}
use rv_mini_os.Display.Glyph.{Paints, within, at_point, write_char-Paints}
use rv_mini_os.Display.Scroll.{scroll-Overruns}

abbrev stripes : Font
stripes c row = 0x55

-- The cursor is at the end of the last row.
abbrev at_the_end : Screen
at_the_end = record { mapped = true; fb = λ i. i; cursor_row = 95; cursor_col = 127; sent = [] }

console_putbytes-Follows_example :
    ((console_putbytes stripes (65 ∷ 9 ∷ 66 ∷ 10 ∷ 8 ∷ []) at_the_end).sent
      ≡ [] ++ 65 ∷ 9 ∷ 66 ∷ 10 ∷ 8 ∷ [])
    × (cursor (console_putbytes stripes (65 ∷ 9 ∷ 66 ∷ 10 ∷ 8 ∷ []) at_the_end)
        ≡ after_all (65 ∷ 9 ∷ 66 ∷ 10 ∷ 8 ∷ []) (cursor at_the_end))
    × OnScreen (cursor (console_putbytes stripes (65 ∷ 9 ∷ 66 ∷ 10 ∷ 8 ∷ []) at_the_end))
console_putbytes-Follows_example =
    console_putbytes-Follows stripes (65 ∷ 9 ∷ 66 ∷ 10 ∷ 8 ∷ []) at_the_end refl (omega arith)

write_char-Paints_example : Paints (write_char stripes 95 127 65 7 3 at_the_end) (λ px py.
    if within (95 * 8) 8 py && within (127 * 8) 8 px
    then dot (stripes 65 (py - 95 * 8)) (px - 127 * 8) 7 3
    else at_point px py at_the_end)
write_char-Paints_example =
    write_char-Paints stripes 95 127 65 7 3 at_the_end (omega arith) (omega arith)

scroll-Overruns_example : at_point 4 6136 (scroll at_the_end) ≡ (
    if 6136 == 6136
    then 0
    else if ltb 6136 767
    then at_point 4 (6136 + 8) at_the_end
    else at_point 4 6136 at_the_end)
scroll-Overruns_example = scroll-Overruns at_the_end 4 6136 (omega arith)
