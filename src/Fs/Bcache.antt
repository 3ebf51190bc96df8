-- ===== src/Fs/Bcache.antt =====
-- The block cache, src/kernel/core/fs/bcache.c, as one task sees it: the spinlock of the cache makes
-- each of its sections one step, and a mutex that is held makes the task wait, which is `none`, as
-- is the panic when no buffer is left. A buffer is named by its index, the list of buffers is that
-- of their indices (Clist), and a block of bytes is a function of the position. The disk is what
-- the driver reads and writes: the bytes of a block from a sector on. Blocks do not overlap, since
-- their sectors are multiples of 8. `fails` says for which sectors the driver returns a negative
-- result, which is -EIO here. As virtio_blk.c is now, it panics at an error of the device instead.
use rv_mini_os.Prelude.{
  ℕ, zero, suc, ◌+◌, ◌-◌, ◌*◌, ◌%◌, ◌^◌, Bool, true, false, not, ◌&&◌, Option, none, some, List,
  ◌∷◌, ◌==◌, if◌then◌else◌, ltb, update, find?,
}
use mathlib.Core.List.{reverse}
use rv_mini_os.Err.{Result, ok, err, eio}
use rv_mini_os.Task.{without}

abbrev pub Bytes : Type 0
Bytes = ℕ → ℕ

pub record Cblk : Type 0 where
  pub blkno : ℕ
  pub refcnt : ℕ
  pub dirty : Bool
  pub valid : Bool
  pub held : Bool
  pub buf : Bytes

pub record Cache : Type 0 where
  pub cblk : ℕ → Cblk
  pub buf_list : List ℕ
  pub disk : ℕ → Bytes
  pub fails : ℕ → Bool

-- `UINT32_MAX`, the number of no block, and `NBUF`
abbrev pub no_blkno : ℕ
no_blkno = 2 ^ 32 - 1

abbrev pub nbuf : ℕ
nbuf = 64

abbrev pub set_cblk : ℕ → Cblk → Cache → Cache
set_cblk b v c = record c { cblk = update c.cblk b v }

-- the loop of `bcache_init`, with the rounds that are left
unfoldable pub init_loop : (rounds i : ℕ) → Cache → Cache
init_loop zero i c = c
init_loop (suc rounds) i c =
    let c1 = set_cblk i (record (c.cblk i) { blkno = no_blkno; held = false }) c in
    init_loop rounds (i + 1) (record c1 { buf_list = i ∷ c1.buf_list })

unfoldable pub bcache_init : Cache → Cache
bcache_init c = init_loop nbuf 0 c

-- The result is an `int`, which the driver takes as a `uint64_t`.
unfoldable pub get_sector : ℕ → ℕ
get_sector blkno = let s = blkno * 8 % 2 ^ 32 in if ltb s (2 ^ 31) then s else s + (2 ^ 64 - 2 ^ 32)

unfoldable pub match_blkno : ℕ → Cache → ℕ → Bool
match_blkno blkno c b = (c.cblk b).blkno == blkno

unfoldable pub cache_request : ℕ → Cache → Option ℕ
cache_request blkno c = find? (match_blkno blkno c) c.buf_list

unfoldable pub is_reusable : Cache → ℕ → Bool
is_reusable c b = ((c.cblk b).refcnt == 0) && not (c.cblk b).dirty

unfoldable pub find_reusable : Cache → Option ℕ
find_reusable c = find? (is_reusable c) (reverse c.buf_list)

unfoldable pub bcache_invalidate : ℕ → Cache → Cache
bcache_invalidate blkno c = elim (cache_request blkno c) [
  | none ↦ c
  | some b ↦ set_cblk b (record (c.cblk b) { dirty = false; valid = false; blkno = no_blkno }) c
]

-- The reference is counted, then the mutex of the buffer is taken.
unfoldable pub take : ℕ → Cache → Option (ℕ × Cache)
take b c =
    if (c.cblk b).held
    then none
    else some (
      b,
      set_cblk b (record (c.cblk b) { refcnt = ((c.cblk b).refcnt + 1) % 2 ^ 32; held = true }) c,
    )

-- a buffer for the block, on a miss
unfoldable pub reuse : ℕ → Cache → Option (ℕ × Cache)
reuse blkno c = elim (find_reusable c) [
  | none ↦ none
  | some b ↦ take b (set_cblk b (record (c.cblk b) { blkno = blkno; valid = false }) c)
]

unfoldable pub bcache_getblk : ℕ → Cache → Option (ℕ × Cache)
bcache_getblk blkno c = elim (cache_request blkno c) [ none ↦ reuse blkno c | some b ↦ take b c ]

unfoldable pub bcache_release : ℕ → Cache → Cache
bcache_release b c =
    let c1 = set_cblk b (record (c.cblk b) { held = false }) c in
    let c2 =
      set_cblk b (record (c1.cblk b) { refcnt = ((c1.cblk b).refcnt + 2 ^ 32 - 1) % 2 ^ 32 }) c1 in
    record c2 { buf_list = b ∷ without b c2.buf_list }

-- the part of `bcache_read` behind `bcache_getblk`
unfoldable pub fetch : ℕ → ℕ → Cache → Option ℕ × Cache
fetch blkno b c =
    if (c.cblk b).valid
    then (some b, c)
    else if c.fails (get_sector blkno)
    then (none, bcache_release b c)
    else (
      some b,
      set_cblk b (record (c.cblk b) { buf = c.disk (get_sector blkno); valid = true }) c,
    )

unfoldable pub bcache_read : ℕ → Cache → Option (Option ℕ × Cache)
bcache_read blkno c = elim (bcache_getblk blkno c) [
  | none ↦ none
  | some (b, c') ↦ some (fetch blkno b c')
]

unfoldable pub bcache_mark_dirty : ℕ → Cache → Cache
bcache_mark_dirty b c = set_cblk b (record (c.cblk b) { dirty = true }) c

unfoldable pub bcache_sync : ℕ → Cache → Result ℕ × Cache
bcache_sync b c =
    if not (c.cblk b).dirty
    then (ok 0, c)
    else if c.fails (get_sector (c.cblk b).blkno)
    then (err eio, c)
    else (
      ok 0,
      set_cblk b (record (c.cblk b) { dirty = false })
          (record c { disk = update c.disk (get_sector (c.cblk b).blkno) (c.cblk b).buf }),
    )
