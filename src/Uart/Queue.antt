-- ===== src/Uart/Queue.antt =====
-- The ring of characters is a queue of at most 127 characters.
use rv_mini_os.Prelude.{
  ℕ, ◌+◌, ◌%◌, ◌<◌, ◌≡◌, ◌≢◌, refl, sym, ◌∙◌, ap, false, List, [], ◌∷◌, ◌++◌, arith, ◌==◌,
  if◌then◌else◌, update, length, length-append, Bool-cases, inl, inr, ==_refl,
}
use rv_mini_os.Err.{ok, err, enospc}
use rv_mini_os.Uart.{Ring, buffer_empty, buffer_full, buffer_put, buffer_get}

-- From position `i` on the buffer holds the characters `xs`.
abbrev pub Holds : (ℕ → ℕ) → ℕ → List ℕ → Type 0
Holds buf i [] = Unit
Holds buf i (x ∷ xs) = (buf (i % 128) ≡ x) × Holds buf (i + 1) xs

-- The ring holds the characters `xs`, the oldest first.
pub record IsQueue (b : Ring) (xs : List ℕ) : Type 0 where
  pub tail_lt : b.tail < 128
  pub fits : length xs < 128
  pub head_is : b.head ≡ (b.tail + length xs) % 128
  pub holds : Holds b.buf b.tail xs

-- A write behind the characters does not change them.
Holds-put :
    (buf : ℕ → ℕ) (i c : ℕ) (xs : List ℕ)
    → length xs < 128
    → Holds buf i xs
    → Holds (update buf ((i + length xs) % 128) c) i (xs ++ c ∷ [])
Holds-put buf i c xs m h = go i xs (i + length xs) refl m h
  where
    go :
        (j : ℕ) (ys : List ℕ) (e : ℕ)
        → e ≡ j + length ys
        → length ys < 128
        → Holds buf j ys
        → Holds (update buf (e % 128) c) j (ys ++ c ∷ [])
    go j [] e p l g = (ground (arith, ==_refl (e % 128)), tt)
    go j (y ∷ ys) e p l g = (ground arith, go (j + 1) ys e (omega arith) (omega arith) g.1)

Holds-mod :
    (buf : ℕ → ℕ) (i j : ℕ) (xs : List ℕ) → i % 128 ≡ j % 128 → Holds buf i xs → Holds buf j xs
Holds-mod buf i j [] e h = tt
Holds-mod buf i j (x ∷ xs) e h =
    (ap buf (sym e) ∙ h.0, Holds-mod buf (i + 1) (j + 1) xs (omega arith) h.1)

full_lem : (b : Ring) (xs : List ℕ) → IsQueue b xs → buffer_full b ≡ (length xs == 127)
unfolding buffer_full
full_lem b xs q = ground (arith, q.tail_lt, q.fits, q.head_is)

empty_lem : (b : Ring) (xs : List ℕ) → IsQueue b xs → buffer_empty b ≡ (length xs == 0)
unfolding buffer_empty
empty_lem b xs q = ground (arith, q.tail_lt, q.fits, q.head_is)

-- On a ring that holds a queue of characters, `buffer_put` adds one behind the others; it fails
-- with ENOSPC, and keeps the queue, if there are 127 already.
pub buffer_put-IsQueue :
    (c : ℕ) (b : Ring) (xs : List ℕ)
    → IsQueue b xs
    → ((buffer_put c b).0 ≡ (if length xs == 127 then err enospc else ok 0))
      × IsQueue (buffer_put c b).1 (if length xs == 127 then xs else xs ++ c ∷ [])
unfolding buffer_put
buffer_put-IsQueue c b xs q = elim (Bool-cases (length xs == 127)) [
  | inl full ↦ rw (full_lem b xs q, full) (refl, q)
  | inr free ↦
      rw (full_lem b xs q, free)
        (
          refl,
          record {
            tail_lt = q.tail_lt;
            fits = omega (arith, length-append xs (c ∷ []), q.fits, short free);
            head_is = omega (arith, length-append xs (c ∷ []), q.head_is, q.tail_lt);
            holds = rw q.head_is (Holds-put b.buf b.tail c xs q.fits q.holds);
          },
        )
]
  where
    short : (length xs == 127) ≡ false → length xs ≢ 127
    short e f = ground arith

-- the characters behind the oldest, and the oldest, or NUL
abbrev pub behind : List ℕ → List ℕ
behind [] = []
behind (x ∷ xs) = xs

abbrev pub oldest : List ℕ → ℕ
oldest [] = 0
oldest (x ∷ xs) = x

-- On a ring that holds a queue of characters, `buffer_get` takes the oldest one out; it gives NUL,
-- and keeps the queue, if there is none.
pub buffer_get-IsQueue :
    (b : Ring) (xs : List ℕ)
    → IsQueue b xs
    → ((buffer_get b).0 ≡ oldest xs) × IsQueue (buffer_get b).1 (behind xs)
unfolding buffer_get
buffer_get-IsQueue b [] q = rw (empty_lem b [] q) (refl, q)
buffer_get-IsQueue b (x ∷ xs) q =
    let some_left : buffer_empty b ≡ false = empty_lem b (x ∷ xs) q ∙ ground arith in
    rw some_left (
      ap b.buf (omega (arith, q.tail_lt)) ∙ q.holds.0,
      record {
        tail_lt = omega arith;
        fits = omega (arith, q.fits);
        head_is = omega (arith, q.head_is, q.tail_lt);
        holds = Holds-mod b.buf (b.tail + 1) ((b.tail + 1) % 128) xs (omega arith) q.holds.1;
      },
    )
