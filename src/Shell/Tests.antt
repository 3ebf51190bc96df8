-- ===== src/Shell/Tests.antt =====
-- A line of three letters with one that is taken back, and what is split and sent to the background.
use rv_mini_os.Prelude.{◌≡◌, refl, true, [], ◌∷◌}
use rv_mini_os.Shell.{parser_scan_line, parse_line, words, parser_is_bg}
use rv_mini_os.Shell.Line.{InBuffer, parser_scan_line-InBuffer}

parser_scan_line-InBuffer_example :
    InBuffer 3 (λ i. 0) (parser_scan_line (97 ∷ 98 ∷ 127 ∷ 99 ∷ 100 ∷ 10 ∷ []) 3 (λ i. 0))
parser_scan_line-InBuffer_example =
    parser_scan_line-InBuffer (97 ∷ 98 ∷ 127 ∷ 99 ∷ 100 ∷ 10 ∷ []) 3 (λ i. 0)

two_words : parse_line (97 ∷ 32 ∷ 32 ∷ 98 ∷ 99 ∷ 32 ∷ []) 8 ≡ (97 ∷ []) ∷ (98 ∷ 99 ∷ []) ∷ []
unfolding parse_line words
two_words = refl

in_background : parser_is_bg ((97 ∷ []) ∷ (38 ∷ []) ∷ []) ≡ (true, (97 ∷ []) ∷ [])
unfolding parser_is_bg
in_background = refl
