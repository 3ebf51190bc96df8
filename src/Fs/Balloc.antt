-- ===== src/Fs/Balloc.antt =====
-- src/kernel/core/fs/balloc.c: data blocks are allocated in bitmaps that lie on the disk.
use rv_mini_os.Prelude.{
  ℕ, zero, suc, ◌+◌, ◌-◌, ◌*◌, ◌/◌, ◌%◌, ◌^◌, ◌||◌, Option, none, some, ◌==◌, ltb, leb,
  if◌then◌else◌,
}
use rv_mini_os.Err.{Result, ok, err, eio, enospc, einval}
use rv_mini_os.Fs.Bcache.{
  Bytes, Cache, set_cblk, bcache_read, bcache_release, bcache_mark_dirty, bcache_invalidate,
}
use rv_mini_os.Fs.Bitmap.{bm_find_first_zero, bm_set_bit, bm_clear_bit}

pub record FsMeta : Type 0 where
  pub magic : ℕ
  pub nb_blk : ℕ
  pub blk_size : ℕ
  pub nb_ibm : ℕ
  pub nb_dbm : ℕ
  pub nb_itab : ℕ
  pub nb_dblk : ℕ
  pub ibm_start : ℕ
  pub dbm_start : ℕ
  pub itab_start : ℕ
  pub data_start : ℕ

-- `FS_BM_BITS_PER_BLK`
abbrev pub bits_per_blk : ℕ
bits_per_blk = 32768

abbrev pub write_buf : ℕ → Bytes → Cache → Cache
write_buf b v c = set_cblk b (record (c.cblk b) { buf = v }) c

unfoldable pub bit_to_blkno : FsMeta → (bit_idx bbm_nb : ℕ) → ℕ
bit_to_blkno sb bit_idx bbm_nb = (bit_idx + bbm_nb * bits_per_blk + sb.data_start) % 2 ^ 32

-- A `uint32_t` returned as an `int32_t`: from 2^31 on it is negative, which callers take as an error.
abbrev pub as_int32 : ℕ → Result ℕ
as_int32 n = if ltb n (2 ^ 31) then ok n else err (2 ^ 32 - n)

-- The loop of `bbm_alloc`, with the rounds that are left. `none` is a wait or a panic of the cache.
unfoldable pub bbm_alloc_loop : FsMeta → (rounds i : ℕ) → Cache → Option (Result ℕ × Cache)
bbm_alloc_loop sb zero i c = some (err enospc, c)
bbm_alloc_loop sb (suc rounds) i c = elim (bcache_read ((sb.dbm_start + i) % 2 ^ 32) c) [
  | none ↦ none
  | some (none, c1) ↦ some (err eio, c1)
  | some (some b, c1) ↦
      let further = bbm_alloc_loop sb rounds (i + 1) (bcache_release b c1) in
      elim (bm_find_first_zero (c1.cblk b).buf bits_per_blk) [
        | none ↦ further
        | some bit_idx ↦
            let blkno = bit_to_blkno sb bit_idx i in
            if leb sb.nb_blk blkno
            then some (err enospc, bcache_release b c1)
            else (let c2 = write_buf b (bm_set_bit (c1.cblk b).buf bit_idx) c1 in
                some (as_int32 blkno, bcache_release b (bcache_mark_dirty b c2)))
      ]
]

unfoldable pub bbm_alloc : FsMeta → Cache → Option (Result ℕ × Cache)
bbm_alloc sb c = bbm_alloc_loop sb sb.nb_dbm 0 c

-- the number of the bitmap and the bit in it, for `int idx`. From 2^31 on `idx` is negative, and so are
-- its quotient and remainder unless they are 0; a negative bit is a write before the buffer, which is a
-- fault here, `none`.
unfoldable pub bm_blk_no_of : FsMeta → (idx : ℕ) → ℕ
bm_blk_no_of sb idx =
    if ltb idx (2 ^ 31)
    then (sb.dbm_start + idx / bits_per_blk) % 2 ^ 32
    else (sb.dbm_start + 2 ^ 32 - (2 ^ 32 - idx) / bits_per_blk) % 2 ^ 32

unfoldable pub bit_idx_of : (idx : ℕ) → Option ℕ
bit_idx_of idx =
    if ltb idx (2 ^ 31)
    then some (idx % bits_per_blk)
    else if (2 ^ 32 - idx) % bits_per_blk == 0
    then some 0
    else none

unfoldable pub bbm_free : FsMeta → ℕ → Cache → Option (Result ℕ × Cache)
bbm_free sb blkno c =
    let idx = blkno - sb.data_start in
    if ltb blkno sb.data_start || leb ((sb.data_start + sb.nb_dblk) % 2 ^ 32) blkno
    then some (err einval, c)
    else (elim (bcache_read (bm_blk_no_of sb idx) c) [
      | none ↦ none
      | some (none, c1) ↦ some (err eio, c1)
      | some (some b, c1) ↦ elim (bit_idx_of idx) [
        | none ↦ none
        | some bit_idx ↦
            let c2 = write_buf b (bm_clear_bit (c1.cblk b).buf bit_idx) c1 in
            some (ok 0, bcache_release b (bcache_mark_dirty b c2))
      ]
    ])

-- the part of `balloc` behind the read of the new block
unfoldable pub clear_block : FsMeta → ℕ → Option ℕ × Cache → Option (Result ℕ × Cache)
clear_block sb blkno (none, c) = elim (bbm_free sb blkno c) [
  | none ↦ none
  | some (res, c1) ↦ some (err eio, c1)
]
clear_block sb blkno (some b, c) =
    some (ok blkno, bcache_release b (bcache_mark_dirty b (write_buf b (λ i. 0) c)))

unfoldable pub balloc : FsMeta → Cache → Option (Result ℕ × Cache)
balloc sb c = elim (bbm_alloc sb c) [
  | none ↦ none
  | some (err e, c1) ↦ some (err e, c1)
  | some (ok blkno, c1) ↦ elim (bcache_read blkno c1) [
    | none ↦ none
    | some r ↦ clear_block sb blkno r
  ]
]

unfoldable pub bfree : FsMeta → ℕ → Cache → Option (Result ℕ × Cache)
bfree sb blkno c = bbm_free sb blkno (bcache_invalidate blkno c)
