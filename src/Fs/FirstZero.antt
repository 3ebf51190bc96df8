-- ===== src/Fs/FirstZero.antt =====
-- The scan for a free bit by words finds the first one.
use rv_mini_os.Prelude.{
  ℕ, zero, suc, ◌+◌, ◌*◌, ◌<◌, ◌≤◌, ◌≡◌, ◌∙◌, ap, true, false, Option, none, some, arith, ◌==◌,
  ==_iff, Bool-cases, Option-cases, inl, inr,
}
use mathlib.Core.Path.{subst}
use rv_mini_os.Fs.Bcache.{Bytes}
use rv_mini_os.Fs.Bitmap.{get_bit, first_zero_from, scan_words, bm_find_first_zero}

abbrev pub AllSet : Bytes → (from to : ℕ) → Type 0
AllSet buf from to = (j : ℕ) → from ≤ j → j < to → get_bit buf j ≡ true

-- the first bit that is 0 among those from `from` on and below `to`, or that there is none
abbrev pub FirstZero : Bytes → (from to : ℕ) → Option ℕ → Type 0
FirstZero buf from to none = AllSet buf from to
FirstZero buf from to (some i) = (from ≤ i) × (i < to) × (get_bit buf i ≡ false) × AllSet buf from i

AllSet-cons :
    (buf : Bytes) (i to : ℕ) → get_bit buf i ≡ true → AllSet buf (i + 1) to → AllSet buf i to
AllSet-cons buf i to e h j l m = elim (Bool-cases (j == i)) [
  | inl same ↦ ap (get_bit buf) ((==_iff j i).0 same) ∙ e
  | inr other ↦ h j (ground arith) m
]

AllSet-append : (buf : Bytes) (i k to : ℕ) → AllSet buf i k → AllSet buf k to → AllSet buf i to
AllSet-append buf i k to f g j l m = ground (arith, f j, g j)

FirstZero-prepend :
    (buf : Bytes) (i k to : ℕ) (r : Option ℕ)
    → i ≤ k
    → AllSet buf i k
    → FirstZero buf k to r
    → FirstZero buf i to r
FirstZero-prepend buf i k to none le f h = AllSet-append buf i k to f h
FirstZero-prepend buf i k to (some j) le f h =
    (omega arith, h.1, h.2, AllSet-append buf i k j f h.3)

first_zero_from-FirstZero :
    (buf : Bytes) (n i : ℕ) → FirstZero buf i (i + n) (first_zero_from buf n i)
unfolding first_zero_from
first_zero_from-FirstZero buf zero i = λ j l m. absurd (omega arith)
first_zero_from-FirstZero buf (suc n) i = elim (Bool-cases (get_bit buf i)) [
  | inl one ↦ rw one (
      subst (λ m. FirstZero buf i m (first_zero_from buf n (i + 1))) (omega arith)
        (FirstZero-prepend buf i (i + 1) (i + 1 + n) (first_zero_from buf n (i + 1)) (omega arith)
          (AllSet-cons buf i (i + 1) one (λ j l m. absurd (omega arith)))
          (first_zero_from-FirstZero buf n (i + 1))))
  | inr zero_bit ↦ rw zero_bit (omega arith, omega arith, zero_bit, (λ j l m. absurd (omega arith)))
]

FirstZero-extend :
    (buf : Bytes) (i k to x : ℕ) → k ≤ to → FirstZero buf i k (some x) → FirstZero buf i to (some x)
FirstZero-extend buf i k to x le h = (h.0, omega arith, h.2, h.3)

scan_words-FirstZero :
    (buf : Bytes) (rounds qw : ℕ)
    → FirstZero buf (qw * 64) ((qw + rounds) * 64) (scan_words buf rounds qw)
unfolding scan_words
scan_words-FirstZero buf zero qw = λ j l m. absurd (omega arith)
scan_words-FirstZero buf (suc rounds) qw =
    let here : FirstZero buf (qw * 64) (qw * 64 + 64) (first_zero_from buf 64 (qw * 64)) =
      first_zero_from-FirstZero buf 64 (qw * 64) in
    elim (Option-cases (first_zero_from buf 64 (qw * 64))) [
      | inl full ↦
          rw (full, scan_words)
            (subst (λ m. FirstZero buf (qw * 64) m (scan_words buf rounds (qw + 1))) (omega arith)
              (FirstZero-prepend buf (qw * 64) ((qw + 1) * 64) ((qw + 1 + rounds) * 64)
                (scan_words buf rounds (qw + 1)) (omega arith)
                (subst (AllSet buf (qw * 64)) (omega arith)
                  (subst (FirstZero buf (qw * 64) (qw * 64 + 64)) full here))
                (scan_words-FirstZero buf rounds (qw + 1))))
      | inr (x, found) ↦
          rw (found, scan_words)
            (FirstZero-extend buf (qw * 64) (qw * 64 + 64) ((qw + suc rounds) * 64) x (omega arith)
              (subst (FirstZero buf (qw * 64) (qw * 64 + 64)) found here))
    ]

pub lowest-FirstZero :
    (buf : Bytes) (words : ℕ) → FirstZero buf 0 (words * 64) (bm_find_first_zero buf (words * 64))
unfolding bm_find_first_zero
lowest-FirstZero buf words =
    subst (λ n. FirstZero buf 0 (words * 64) (scan_words buf n 0)) (omega arith)
      (subst (λ (p : ℕ × ℕ). FirstZero buf p.0 p.1 (scan_words buf words 0)) bounds
        (scan_words-FirstZero buf words 0))
  where
    low : 0 * 64 ≡ 0
    low = omega arith

    high : (0 + words) * 64 ≡ words * 64
    high = omega arith

    bounds : Path (ℕ × ℕ) (0 * 64, (0 + words) * 64) (0, words * 64)
    bounds = λ i. (low i, high i)
