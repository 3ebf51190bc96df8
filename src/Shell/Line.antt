-- ===== src/Shell/Line.antt =====
-- A line that is read stays in its buffer.
use rv_mini_os.Prelude.{
  ℕ, ◌+◌, ◌-◌, ◌≤◌, ◌<◌, ◌≡◌, refl, ◌∙◌, Option, none, some, List, [], ◌∷◌, arith, ◌==◌, ==_refl,
  ltb, update, Bool-cases, inl, inr,
}
use rv_mini_os.Err.{Result, ok, err, einval}
use rv_mini_os.Shell.{is_end, is_backspace, scan_loop, parser_scan_line}

-- The line ends in the buffer, with a NUL, and nothing is written behind the buffer; without room for
-- the NUL there is an error, and nothing is written.
abbrev pub InBuffer : (max_size : ℕ) (line : ℕ → ℕ) → Option (Result ℕ × (ℕ → ℕ)) → Type 0
InBuffer max_size line none = Unit
InBuffer max_size line (some (ok i, line')) =
    (i < max_size) × (line' i ≡ 0) × ((j : ℕ) → max_size ≤ j → line' j ≡ line j)
InBuffer max_size line (some (err e, line')) = (e ≡ einval) × (max_size ≡ 0) × (line' ≡ line)

later :
    (max_size i c : ℕ) (line : ℕ → ℕ) (r : Option (Result ℕ × (ℕ → ℕ)))
    → i < max_size
    → InBuffer max_size (update line i c) r
    → InBuffer max_size line r
later max_size i c line none h b = tt
later max_size i c line (some (ok k, line')) h (l, z, s) = (l, z, λ j m. (s j m ∙ ground arith))
later max_size i c line (some (err e, line')) h (l, z, s) = absurd (omega arith)

scan_loop-InBuffer :
    (typed : List ℕ) (i max_size : ℕ) (line : ℕ → ℕ)
    → i < max_size
    → InBuffer max_size line (scan_loop typed i max_size line)
unfolding scan_loop
scan_loop-InBuffer [] i max_size line h = tt
scan_loop-InBuffer (c ∷ typed) i max_size line h = elim (Bool-cases (is_end c)) [
  | inl ends ↦ rw ends (h, ground (arith, ==_refl i), λ j m. ground arith)
  | inr goes_on ↦ elim (Bool-cases (is_backspace c)) [
    | inl back ↦ elim (Bool-cases (ltb 0 i)) [
      | inl some_left ↦
          rw (goes_on, back, some_left)
            (scan_loop-InBuffer typed (i - 1) max_size line (omega arith))
      | inr empty ↦ rw (goes_on, back, empty) (scan_loop-InBuffer typed i max_size line h)
    ]
    | inr letter ↦ elim (Bool-cases (ltb i (max_size - 1))) [
      | inl room ↦
          let fits : i + 1 < max_size = ground arith in
          rw (goes_on, letter, room)
            (later max_size i c line (scan_loop typed (i + 1) max_size (update line i c)) h
              (scan_loop-InBuffer typed (i + 1) max_size (update line i c) fits))
      | inr full ↦ rw (goes_on, letter, full) (scan_loop-InBuffer typed i max_size line h)
    ]
  ]
]

-- Whatever is typed, `parser_scan_line` ends the line with a NUL below `max_size`, at the length that
-- it returns, and writes nothing behind the buffer; it fails only if `max_size` is 0, with EINVAL,
-- and writes nothing then.
pub parser_scan_line-InBuffer :
    (typed : List ℕ) (max_size : ℕ) (line : ℕ → ℕ)
    → InBuffer max_size line (parser_scan_line typed max_size line)
unfolding parser_scan_line
parser_scan_line-InBuffer typed max_size line = elim (Bool-cases (max_size == 0)) [
  | inl none_at_all ↦ rw none_at_all (refl, ground arith, refl)
  | inr room ↦ rw room (scan_loop-InBuffer typed 0 max_size line (ground arith))
]
