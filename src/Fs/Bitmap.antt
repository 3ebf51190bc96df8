-- ===== src/Fs/Bitmap.antt =====
-- src/lib/bitmap.c: a bitmap in a block of bytes. The scan reads 64-bit words, in little-endian
-- order; `__builtin_ctzll(~word)` is the first bit of a word that is 0.
use Prim.Native.Nat.{bit_and, bit_or}
use rv_mini_os.Prelude.{
  ℕ, zero, suc, ◌+◌, ◌-◌, ◌*◌, ◌/◌, ◌%◌, ◌^◌, Bool, Option, none, some, ◌==◌, if◌then◌else◌, update,
}
use rv_mini_os.Fs.Bcache.{Bytes}

-- bit `i` of the map
unfoldable pub get_bit : Bytes → ℕ → Bool
get_bit buf i = buf (i / 8) / 2 ^ (i % 8) % 2 == 1

unfoldable pub bm_set_bit : Bytes → ℕ → Bytes
bm_set_bit buf bit_idx = update buf (bit_idx / 8) (bit_or (buf (bit_idx / 8)) (2 ^ (bit_idx % 8)))

-- The complement of a mask is taken in a byte.
unfoldable pub bm_clear_bit : Bytes → ℕ → Bytes
bm_clear_bit buf bit_idx =
    update buf (bit_idx / 8) (bit_and (buf (bit_idx / 8)) (255 - 2 ^ (bit_idx % 8)))

-- the first bit from `i` on that is 0, among `n` bits
unfoldable pub first_zero_from : Bytes → (n i : ℕ) → Option ℕ
first_zero_from buf zero i = none
first_zero_from buf (suc n) i =
    let rest = first_zero_from buf n (i + 1) in if get_bit buf i then rest else some i

-- the words that are left, and the index of the next one
unfoldable pub scan_words : Bytes → (rounds qw : ℕ) → Option ℕ
scan_words buf zero qw = none
scan_words buf (suc rounds) qw =
    let rest = scan_words buf rounds (qw + 1) in
    elim (first_zero_from buf 64 (qw * 64)) [ none ↦ rest | some i ↦ some i ]

unfoldable pub bm_find_first_zero : Bytes → ℕ → Option ℕ
bm_find_first_zero buf bit_size = scan_words buf (bit_size / 64) 0
