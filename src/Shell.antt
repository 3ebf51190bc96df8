-- ===== src/Shell.antt =====
-- Reading and splitting a line of commands, src/user/src/parser.c. What is typed is the list of the
-- characters that `read` gives; `none` is the wait for more. What is printed is left out.
pub mod Line
mod Tests
use rv_mini_os.Prelude.{
  ℕ, zero, suc, ◌+◌, ◌-◌, Bool, true, false, not, ◌&&◌, ◌||◌, Option, none, some, List, [], ◌∷◌,
  ◌++◌, ◌==◌, ltb, if◌then◌else◌, update,
}
use rv_mini_os.Err.{Result, ok, err, einval}

-- '\n', '\r', and backspace, 8 or 127
abbrev pub is_end : ℕ → Bool
is_end c = (c == 10) || (c == 13)

abbrev pub is_backspace : ℕ → Bool
is_backspace c = (c == 8) || (c == 127)

-- The loop of `parser_scan_line`, over what is typed.
unfoldable pub scan_loop :
    (typed : List ℕ) (i max_size : ℕ) (line : ℕ → ℕ) → Option (Result ℕ × (ℕ → ℕ))
scan_loop [] i max_size line = none
scan_loop (c ∷ typed) i max_size line =
    let erased = scan_loop typed (i - 1) max_size line in
    let added = scan_loop typed (i + 1) max_size (update line i c) in
    let ignored = scan_loop typed i max_size line in
    if is_end c
    then some (ok i, update line i 0)
    else if is_backspace c
    then (if ltb 0 i then erased else ignored)
    else if ltb i (max_size - 1)
    then added
    else ignored

unfoldable pub parser_scan_line :
    (typed : List ℕ) (max_size : ℕ) (line : ℕ → ℕ) → Option (Result ℕ × (ℕ → ℕ))
parser_scan_line typed max_size line =
    if max_size == 0 then some (err einval, line) else scan_loop typed 0 max_size line

-- `strtok`: the words between the blanks, 32, that are not empty
abbrev pub end_word : List ℕ → List (List ℕ) → List (List ℕ)
end_word [] words = words
end_word (c ∷ word) words = (c ∷ word) ∷ words

unfoldable pub words : (word line : List ℕ) → List (List ℕ)
words word [] = end_word word []
words word (c ∷ line) =
    let rest = words [] line in
    let more = words (word ++ c ∷ []) line in if c == 32 then end_word word rest else more

-- the words that find room; the last entry is NULL
abbrev pub take_words : (room : ℕ) → List (List ℕ) → List (List ℕ)
take_words zero ws = []
take_words (suc room) [] = []
take_words (suc room) (w ∷ ws) = w ∷ take_words room ws

unfoldable pub parse_line : (line : List ℕ) (max_args : ℕ) → List (List ℕ)
parse_line line max_args = take_words (max_args - 1) (words [] line)

abbrev pub is_ampersand : List ℕ → Bool
is_ampersand [] = false
is_ampersand (c ∷ []) = c == 38
is_ampersand (c ∷ d ∷ word) = false

-- a last word "&", which is taken off
unfoldable pub parser_is_bg : List (List ℕ) → Bool × List (List ℕ)
parser_is_bg [] = (false, [])
parser_is_bg (w ∷ []) = if is_ampersand w then (true, []) else (false, w ∷ [])
parser_is_bg (w ∷ v ∷ ws) = let (bg, rest) = parser_is_bg (v ∷ ws) in (bg, w ∷ rest)
