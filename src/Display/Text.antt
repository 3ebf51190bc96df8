-- ===== src/Display/Text.antt =====
-- The cursor of the text console follows the text.
use rv_mini_os.Prelude.{
  ℕ, ◌+◌, ◌-◌, ◌*◌, ◌/◌, ◌%◌, ◌^◌, ◌<◌, ◌≡◌, refl, sym, ap, ◌∙◌, Bool, true, false, ◌&&◌, List, [],
  ◌∷◌, ◌++◌, arith, ◌==◌, ltb, leb, if◌then◌else◌, Bool-cases, inl, inr, append_assoc, append-nil,
}
use mathlib.Core.Path.{subst}
use rv_mini_os.Display.{
  Screen, Font, write_rows, write_char, set_cursor, advance_cursor, put_char, clear_lines,
  clear_screen, tab, backspace, newline, carriage_return, handle_char, console_putbytes,
}
use rv_mini_os.Display.Cursor.{
  Position, cursor, stop_row, Keeps, Moves, Keeps-Moves, set_cursor-Moves, write_rows-Keeps,
  clear_lines-Keeps,
}

-- The cursor is on the screen: 96 rows of 128 characters.
pub record OnScreen (p : Position) : Type 0 where
  pub row_lt : p.row < 96
  pub col_lt : p.col < 128

abbrev pub next_line : Position → Position
next_line p = record { row = stop_row (p.row + 1); col = 0 }

-- a column of the same row, or the next row if the column is out of it
abbrev pub forward : ℕ → Position → Position
forward col p = if ltb col 128 then record p { col = col } else next_line p

-- Where a character takes the cursor. A tab goes to a column that is a multiple of 8.
unfoldable pub after : ℕ → Position → Position
after c p =
    if leb 32 c && ltb c 127
    then forward (p.col + 1) p
    else if c == 8
    then record p { col = p.col - 1 }
    else if c == 9
    then forward ((p.col + 7) / 8 * 8) p
    else if c == 10
    then next_line p
    else if c == 12
    then record { row = 1; col = 0 }
    else if c == 13
    then record p { col = 0 }
    else p

unfoldable pub after_all : List ℕ → Position → Position
after_all [] p = p
after_all (c ∷ cs) p = after_all cs (after c p)

after-OnScreen : (c : ℕ) (p : Position) → OnScreen p → OnScreen (after c p)
unfolding after
after-OnScreen c p o = ground arith

Moves-to : {a b : Screen} {p q : Position} → Moves a b p → p ≡ q → Moves a b q
Moves-to m e = record {
  at_position = m.at_position ∙ e;
  same_mapped = m.same_mapped;
  same_sent = m.same_sent;
}

-- A row of the screen is no reason to scroll.
set_col :
    (col : ℕ) (s : Screen)
    → OnScreen (cursor s)
    → col < 128
    → Moves s (set_cursor s.cursor_row col s) (record { row = s.cursor_row; col = col })
set_col col s o h =
    let m = set_cursor-Moves s.cursor_row col s h in
    let stays : stop_row s.cursor_row ≡ s.cursor_row = ground (arith, o.row_lt) in
    record {
      at_position = m.at_position ∙ (λ i. record { row = stays i; col = col });
      same_mapped = m.same_mapped;
      same_sent = m.same_sent;
    }

advance_cursor-Moves :
    (s : Screen)
    → OnScreen (cursor s)
    → Moves s (advance_cursor s) (forward (s.cursor_col + 1) (cursor s))
unfolding advance_cursor
advance_cursor-Moves s o = elim (Bool-cases (ltb (s.cursor_col + 1) 128)) [
  | inl fits ↦ rw fits (set_col (s.cursor_col + 1) s o (ground arith))
  | inr full ↦ rw full (set_cursor-Moves (s.cursor_row + 1) 0 s (omega arith))
]

put_char-Moves :
    (font : Font) (c : ℕ) (s : Screen)
    → OnScreen (cursor s)
    → Moves s (put_char font c s) (forward (s.cursor_col + 1) (cursor s))
unfolding put_char write_char
put_char-Moves font c s o =
    let drawn =
      (write_rows font 8 0 c (s.cursor_col * 8 % 2 ^ 32) (s.cursor_row * 8 % 2 ^ 32) 0xFFFFFF 0
        s).1 in
    let k : Keeps s drawn =
      write_rows-Keeps font 8 0 c (s.cursor_col * 8 % 2 ^ 32) (s.cursor_row * 8 % 2 ^ 32) 0xFFFFFF 0
        s in
    let m = advance_cursor-Moves drawn (subst OnScreen (sym k.same_cursor) o) in
    Moves-to (Keeps-Moves k m) (ap (λ (p : Position). forward (p.col + 1) p) k.same_cursor)

tab-Moves :
    (s : Screen)
    → OnScreen (cursor s)
    → Moves s (tab s) (forward ((s.cursor_col + 7) / 8 * 8) (cursor s))
unfolding tab
tab-Moves s o =
    let stop : s.cursor_col + (8 - s.cursor_col % 8) % 8 ≡ (s.cursor_col + 7) / 8 * 8 =
      omega arith in
    elim (Bool-cases (leb 128 ((8 - s.cursor_col % 8) % 8 + s.cursor_col))) [
      | inl margin ↦
          let past : ltb ((s.cursor_col + 7) / 8 * 8) 128 ≡ false = ground (arith, stop) in
          rw (margin, past) (set_cursor-Moves (s.cursor_row + 1) 0 s (omega arith))
      | inr inside ↦
          let fits : ltb ((s.cursor_col + 7) / 8 * 8) 128 ≡ true = ground (arith, stop) in
          rw (inside, fits, stop) (set_col ((s.cursor_col + 7) / 8 * 8) s o (ground arith))
    ]

backspace-Moves :
    (s : Screen)
    → OnScreen (cursor s)
    → Moves s (backspace s) (record { row = s.cursor_row; col = s.cursor_col - 1 })
unfolding backspace
backspace-Moves s o = elim (Bool-cases (ltb 0 s.cursor_col)) [
  | inl inside ↦ rw inside (set_col (s.cursor_col - 1) s o (omega (arith, o.col_lt)))
  | inr margin ↦
      let stays : s.cursor_col ≡ s.cursor_col - 1 = ground arith in
      rw margin (record {
        at_position = λ i. record { row = s.cursor_row; col = stays i };
        same_mapped = refl;
        same_sent = refl;
      })
]

clear_screen-Moves : (s : Screen) → Moves s (clear_screen s) (record { row = 1; col = 0 })
unfolding clear_screen
clear_screen-Moves s =
    Keeps-Moves (clear_lines-Keeps 768 0 s)
      (set_cursor-Moves 1 0 (clear_lines 768 0 s) (omega arith))

handle_char-Moves :
    (font : Font) (c : ℕ) (s : Screen)
    → OnScreen (cursor s)
    → Moves s (handle_char font c s) (after c (cursor s))
unfolding handle_char after newline carriage_return
handle_char-Moves font c s o = elim (Bool-cases (leb 32 c && ltb c 127)) [
  | inl printed ↦ rw printed (put_char-Moves font c s o)
  | inr control ↦ rw control (elim (Bool-cases (c == 8)) [
    | inl b ↦ rw b (backspace-Moves s o)
    | inr nb ↦ rw nb (elim (Bool-cases (c == 9)) [
      | inl t ↦ rw t (tab-Moves s o)
      | inr nt ↦ rw nt (elim (Bool-cases (c == 10)) [
        | inl n ↦ rw n (set_cursor-Moves (s.cursor_row + 1) 0 s (omega arith))
        | inr nn ↦ rw nn (elim (Bool-cases (c == 12)) [
          | inl f ↦ rw f (clear_screen-Moves s)
          | inr nf ↦ rw nf (elim (Bool-cases (c == 13)) [
            | inl r ↦ rw r (set_col 0 s o (omega arith))
            | inr nr ↦ rw nr (record { at_position = refl; same_mapped = refl; same_sent = refl })
          ])
        ])
      ])
    ])
  ])
]

console_putbytes-step :
    (font : Font) (c : ℕ) (cs : List ℕ) (s : Screen)
    → s.mapped ≡ true
    → console_putbytes font (c ∷ cs) s
      ≡ console_putbytes font cs (handle_char font c (record s { sent = s.sent ++ c ∷ [] }))
unfolding console_putbytes
console_putbytes-step font c cs s on =
    let s1 : Screen = record s { sent = s.sent ++ c ∷ [] } in
    ap (λ (b : Bool). console_putbytes font cs (if b then handle_char font c s1 else s1)) on

-- On a display that is set up, with the cursor on the screen: `console_putbytes` sends all characters
-- to the UART, in their order, and the cursor goes where they take it one by one. It never leaves
-- the screen.
pub console_putbytes-Follows :
    (font : Font) (cs : List ℕ) (s : Screen)
    → s.mapped ≡ true
    → OnScreen (cursor s)
    → ((console_putbytes font cs s).sent ≡ s.sent ++ cs)
      × (cursor (console_putbytes font cs s) ≡ after_all cs (cursor s))
      × OnScreen (cursor (console_putbytes font cs s))
unfolding after_all
console_putbytes-Follows font [] s on o =
    unfold console_putbytes in (sym (append-nil s.sent), refl, o)
console_putbytes-Follows font (c ∷ cs) s on o =
    let s1 : Screen = record s { sent = s.sent ++ c ∷ [] } in
    let m : Moves s1 (handle_char font c s1) (after c (cursor s)) = handle_char-Moves font c s1 o in
    let inside : OnScreen (cursor (handle_char font c s1)) =
      subst OnScreen (sym m.at_position) (after-OnScreen c (cursor s) o) in
    let rest =
      console_putbytes-Follows font cs (handle_char font c s1) (m.same_mapped ∙ on) inside in
    rw (console_putbytes-step font c cs s on) (
      rest.0 ∙ ap (λ l. l ++ cs) m.same_sent ∙ append_assoc s.sent (c ∷ []) cs,
      rest.1 ∙ ap (after_all cs) m.at_position,
      rest.2,
    )
