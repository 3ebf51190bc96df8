-- ===== src/Display/Scroll.antt =====
-- What scrolling does to the lines of the display, and to those behind it.
use rv_mini_os.Prelude.{ℕ, ◌+◌, ◌*◌, ◌<◌, ◌≡◌, ap, arith, ◌==◌, ltb, if◌then◌else◌}
use rv_mini_os.Display.{Screen, scroll}
use rv_mini_os.Display.Glyph.{at_point}

-- `scroll` moves the lines up by 8. Of the 768 lines the last eight are not cleared: seven come from
-- behind the display, and line 767 stays as it is. The line that becomes background is line 6136,
-- which is behind the display, and all other lines stay.
pub scroll-Overruns :
    (s : Screen) (x y : ℕ)
    → x < 1024
    → at_point x y (scroll s)
      ≡ (if y == 6136 then 0 else if ltb y 767 then at_point x (y + 8) s else at_point x y s)
unfolding scroll
scroll-Overruns s x y h =
    let e : y * 1024 + x + 8192 ≡ (y + 8) * 1024 + x = omega arith in ground (arith, ap s.fb e)
