-- ===== src/Fs/Bits.antt =====
-- Setting and clearing a bit of a map of bytes.
use Prim.Native.Nat.{bit_and, bit_or}
use rv_mini_os.Prelude.{
  ℕ, zero, suc, ◌-◌, ◌/◌, ◌%◌, ◌^◌, ◌<◌, ◌≡◌, refl, sym, ap, Bool, true, false, arith, ◌==◌, ==_iff,
  ltb, if◌then◌else◌, Bool-cases, inl, inr,
}
use rv_mini_os.Fs.Bcache.{Bytes}
use rv_mini_os.Fs.Bitmap.{get_bit, bm_set_bit, bm_clear_bit}

-- a test that each number below a bound passes
every : (ℕ → Bool) → ℕ → Bool
every test zero = true
every test (suc bound) = if test bound then every test bound else false

every_lem : (test : ℕ → Bool) (bound k : ℕ) → k < bound → every test bound ≡ true → test k ≡ true
unfolding every
every_lem test zero k below passed = absurd (omega arith)
every_lem test (suc bound) k below passed = elim (Bool-cases (k == bound)) [
  | inl last ↦ ground (arith, ap test ((==_iff k bound).0 last))
  | inr earlier ↦ every_lem test bound k (ground arith) (ground arith)
]

-- bit `r` of byte `v`
abbrev bit : (v r : ℕ) → ℕ
bit v r = v / 2 ^ r % 2

set_table :
    every
      (λ v.
        every (λ s. every (λ r. bit (bit_or v (2 ^ s)) r == (if r == s then 1 else bit v r)) 8) 8)
      256
    ≡ true
unfolding every
set_table = refl

clear_table :
    every
      (λ v.
        every
          (λ s. every (λ r. bit (bit_and v (255 - 2 ^ s)) r == (if r == s then 0 else bit v r)) 8)
          8)
      256
    ≡ true
unfolding every
clear_table = refl

set_byte :
    (v s r : ℕ)
    → v < 256
    → s < 8
    → r < 8
    → bit (bit_or v (2 ^ s)) r ≡ (if r == s then 1 else bit v r)
set_byte v s r hv hs hr =
    (==_iff _ _).0 (every_lem _ 8 r hr (every_lem _ 8 s hs (every_lem _ 256 v hv set_table)))

clear_byte :
    (v s r : ℕ)
    → v < 256
    → s < 8
    → r < 8
    → bit (bit_and v (255 - 2 ^ s)) r ≡ (if r == s then 0 else bit v r)
clear_byte v s r hv hs hr =
    (==_iff _ _).0 (every_lem _ 8 r hr (every_lem _ 8 s hs (every_lem _ 256 v hv clear_table)))

-- In one byte, positions are told apart by their remainders.
same_byte : (i j : ℕ) → j / 8 ≡ i / 8 → (j % 8 == i % 8) ≡ (j == i)
same_byte i j e = ground arith

other_byte : (i j : ℕ) → (j / 8 == i / 8) ≡ false → (j == i) ≡ false
other_byte i j e = ground arith

-- In a map of bytes, `bm_set_bit` sets its bit and leaves every other one.
pub set_bit_lem :
    (buf : Bytes) (i j : ℕ)
    → buf (i / 8) < 256
    → get_bit (bm_set_bit buf i) j ≡ (if j == i then true else get_bit buf j)
unfolding get_bit bm_set_bit
set_bit_lem buf i j h = elim (Bool-cases (j / 8 == i / 8)) [
  | inr other ↦ rw (other, other_byte i j other) refl
  | inl same ↦
      let e : j / 8 ≡ i / 8 = (==_iff (j / 8) (i / 8)).0 same in
      rw
        (
          same,
          set_byte (buf (i / 8)) (i % 8) (j % 8) h (omega arith) (omega arith),
          same_byte i j e,
        )
        (finish (j == i) e)
]
  where
    finish :
        (b : Bool)
        → j / 8 ≡ i / 8
        → ((if b then 1 else bit (buf (i / 8)) (j % 8)) == 1)
          ≡ (if b then true else (buf (j / 8) / 2 ^ (j % 8) % 2 == 1))
    finish true e = refl
    finish false e = ap (λ n. buf n / 2 ^ (j % 8) % 2 == 1) (sym e)

-- In a map of bytes, `bm_clear_bit` clears its bit and leaves every other one.
pub clear_bit_lem :
    (buf : Bytes) (i j : ℕ)
    → buf (i / 8) < 256
    → get_bit (bm_clear_bit buf i) j ≡ (if j == i then false else get_bit buf j)
unfolding get_bit bm_clear_bit
clear_bit_lem buf i j h = elim (Bool-cases (j / 8 == i / 8)) [
  | inr other ↦ rw (other, other_byte i j other) refl
  | inl same ↦
      let e : j / 8 ≡ i / 8 = (==_iff (j / 8) (i / 8)).0 same in
      rw
        (
          same,
          clear_byte (buf (i / 8)) (i % 8) (j % 8) h (omega arith) (omega arith),
          same_byte i j e,
        )
        (finish (j == i) e)
]
  where
    finish :
        (b : Bool)
        → j / 8 ≡ i / 8
        → ((if b then 0 else bit (buf (i / 8)) (j % 8)) == 1)
          ≡ (if b then false else (buf (j / 8) / 2 ^ (j % 8) % 2 == 1))
    finish true e = refl
    finish false e = ap (λ n. buf n / 2 ^ (j % 8) % 2 == 1) (sym e)

set_below_table : every (λ v. every (λ s. ltb (bit_or v (2 ^ s)) 256) 8) 256 ≡ true
unfolding every
set_below_table = refl

clear_below_table : every (λ v. every (λ s. ltb (bit_and v (255 - 2 ^ s)) 256) 8) 256 ≡ true
unfolding every
clear_below_table = refl

-- Both leave a map of bytes a map of bytes.
pub set_bit-below :
    (buf : Bytes) (i : ℕ) → ((j : ℕ) → buf j < 256) → (j : ℕ) → bm_set_bit buf i j < 256
unfolding bm_set_bit
set_bit-below buf i bytes j =
    let byte : ltb (bit_or (buf (i / 8)) (2 ^ (i % 8))) 256 ≡ true =
      every_lem _ 8 (i % 8) (omega arith)
        (every_lem _ 256 (buf (i / 8)) (bytes (i / 8)) set_below_table) in
    ground (arith, bytes j)

pub clear_bit-below :
    (buf : Bytes) (i : ℕ) → ((j : ℕ) → buf j < 256) → (j : ℕ) → bm_clear_bit buf i j < 256
unfolding bm_clear_bit
clear_bit-below buf i bytes j =
    let byte : ltb (bit_and (buf (i / 8)) (255 - 2 ^ (i % 8))) 256 ≡ true =
      every_lem _ 8 (i % 8) (omega arith)
        (every_lem _ 256 (buf (i / 8)) (bytes (i / 8)) clear_below_table) in
    ground (arith, bytes j)
