-- ===== src/Fs/Tests.antt =====
-- The theorems on the file system at caches of one buffer and of two.
use rv_mini_os.Prelude.{
  ◌==◌, if◌then◌else◌, ℕ, ◌+◌, Option, none, inr, ◌≢◌, sym, has, ==_iff, arith, ◌≡◌, refl, true,
  false, some, [], ◌∷◌,
}
use rv_mini_os.Fs.Bcache.{
  Bytes, Cache, set_cblk, no_blkno, bcache_release, bcache_mark_dirty, bcache_sync,
  bcache_invalidate, bcache_read, bcache_getblk, cache_request, match_blkno, take, fetch, reuse,
  find_reusable, is_reusable,
}
use rv_mini_os.Fs.ReadBack.{written, read-written}
use rv_mini_os.Fs.Contents.{IsCache, Shows-contents}
use rv_mini_os.Fs.Writes.{Updated, read_and_written-Updated}
use rv_mini_os.Fs.Synced.{InReach, Synced, bcache_sync-Synced}
use rv_mini_os.Err.{Result, ok}
use rv_mini_os.Fs.Balloc.{
  FsMeta, bbm_alloc_loop, bbm_alloc, bit_to_blkno, clear_block, balloc, bbm_free, bm_blk_no_of,
  bit_idx_of, bfree,
}
use rv_mini_os.Fs.Used.{IsDisk, MapsOfBytes}
use rv_mini_os.Fs.Invalid.{BlockFreed, bfree-BlockFreed}
use rv_mini_os.Fs.BlockGiven.{zeros, BlockGiven, balloc-BlockGiven}
use rv_mini_os.Fs.Bitmap.{
  bm_find_first_zero, scan_words, first_zero_from, get_bit, bm_set_bit, bm_clear_bit,
}
use rv_mini_os.Fs.FirstZero.{FirstZero}
use rv_mini_os.Fs.Inode.{Fs}
use rv_mini_os.Fs.ReadWrite.{kernel_buffer, inode_read, read_loop}
use rv_mini_os.Fs.Amount.{Amount, inode_read-Amount, read_loop-enough_fuel}

-- Buffer 0 holds block 5.
abbrev one_buffer : Cache
one_buffer = record {
  cblk = λ b. record {
    blkno = 5;
    refcnt = 0;
    dirty = false;
    valid = true;
    held = false;
    buf = λ i. 7;
  };
  buf_list = 0 ∷ [];
  disk = λ n i. 7;
  fails = λ n. false;
}

abbrev one_taken : Cache
one_taken = set_cblk 0 (record (one_buffer.cblk 0) { refcnt = 1; held = true }) one_buffer

read-five : bcache_read 5 one_buffer ≡ some (some 0, one_taken)
unfolding bcache_read bcache_getblk cache_request match_blkno take fetch
read-five = refl

read-written_example :
    (c2 : Cache) × (bcache_read 5 (written 0 (λ i. 9) one_taken) ≡ some (some 0, c2))
    × ((c2.cblk 0).buf ≡ (λ i. 9))
read-written_example = read-written 5 0 one_buffer one_taken (λ i. 9) read-five

one_buffer-IsCache : IsCache one_buffer
one_buffer-IsCache = record {
  unique = λ a b ha hb e numbered. ground (arith, ==_iff a 0, ==_iff b 0);
  clean = λ b h valid clear. refl;
}

five_is_block : 5 ≢ no_blkno
five_is_block e = ground arith

abbrev nines : Bytes
nines i = 9

read_and_written-Updated_example : Updated 5 nines one_buffer (written 0 nines one_taken)
read_and_written-Updated_example =
    read_and_written-Updated 5 0 nines one_buffer one_taken one_buffer-IsCache five_is_block
      read-five

-- a buffer that is dirty
abbrev one_written : Cache
one_written = written 0 nines one_taken

one_written-IsCache : IsCache one_written
one_written-IsCache =
    (read_and_written-Updated 5 0 nines one_buffer one_taken one_buffer-IsCache five_is_block
      read-five).well

one_written-listed : has 0 one_written.buf_list ≡ true
unfolding bcache_release bcache_mark_dirty
one_written-listed = refl

one_written-fields :
    ((one_written.cblk 0).valid ≡ true)
    × ((one_written.cblk 0).blkno ≡ 5)
    × ((one_written.cblk 0).dirty ≡ true)
unfolding bcache_release bcache_mark_dirty
one_written-fields = (refl, refl, refl)

one_written-InReach : InReach one_written
unfolding bcache_release bcache_mark_dirty
one_written-InReach b h valid = ground arith

bcache_sync-Synced_example :
    Synced 0 one_written (bcache_sync 0 one_written).0 (bcache_sync 0 one_written).1
bcache_sync-Synced_example =
    bcache_sync-Synced 0 one_written one_written-IsCache one_written-InReach one_written-listed
      one_written-fields.0

-- Two buffers of no block, on a disk of zeros with one bitmap.
abbrev two_buffers : Cache
two_buffers = record {
  cblk = λ b. record {
    blkno = no_blkno;
    refcnt = 0;
    dirty = false;
    valid = false;
    held = false;
    buf = nines;
  };
  buf_list = 0 ∷ 1 ∷ [];
  disk = λ n. zeros;
  fails = λ n. false;
}

abbrev small_sb : FsMeta
small_sb = record {
  magic = 69;
  nb_blk = 100;
  blk_size = 4096;
  nb_ibm = 1;
  nb_dbm = 1;
  nb_itab = 1;
  nb_dblk = 90;
  ibm_start = 2;
  dbm_start = 3;
  itab_start = 4;
  data_start = 5;
}

two_buffers-IsCache : IsCache two_buffers
two_buffers-IsCache = record {
  unique = λ a b ha hb e numbered. absurd (numbered refl);
  clean = λ b h valid clear. ground (arith, valid);
}

small_sb-IsDisk : IsDisk small_sb
small_sb-IsDisk = record {
  layout = record { maps = omega arith; blocks = omega arith; numbers = omega arith };
  counted = omega arith;
  ends = omega arith;
  behind = omega arith;
  places = omega arith;
}

two_buffers-MapsOfBytes : MapsOfBytes small_sb two_buffers
two_buffers-MapsOfBytes i j h =
    let num : 3 + i ≢ no_blkno = (λ e. omega arith) in
    rw
      (Shows-contents (3 + i) two_buffers zeros two_buffers-IsCache num
        (inr (λ b listed z. num (sym z), refl)))
      (omega arith)

abbrev after : Option (Result ℕ × Cache) → Cache
after none = two_buffers
after (some (r, c)) = c

balloc_returns : balloc small_sb two_buffers ≡ some (ok 5, after (balloc small_sb two_buffers))
unfolding balloc bbm_alloc bbm_alloc_loop bcache_read bcache_getblk cache_request match_blkno take
    fetch reuse find_reusable is_reusable bm_find_first_zero scan_words first_zero_from get_bit
    bit_to_blkno bm_set_bit bcache_mark_dirty bcache_release clear_block
balloc_returns = refl

balloc-BlockGiven_example :
    BlockGiven small_sb (ok 5) two_buffers (after (balloc small_sb two_buffers))
balloc-BlockGiven_example =
    balloc-BlockGiven small_sb (ok 5) two_buffers (after (balloc small_sb two_buffers))
      small_sb-IsDisk two_buffers-IsCache two_buffers-MapsOfBytes balloc_returns

-- the cache in which block 5 is given
abbrev five_given : Cache
five_given = after (balloc small_sb two_buffers)

five_given-BlockGiven : BlockGiven small_sb (ok 5) two_buffers five_given
five_given-BlockGiven =
    balloc-BlockGiven small_sb (ok 5) two_buffers five_given small_sb-IsDisk two_buffers-IsCache
      two_buffers-MapsOfBytes balloc_returns

bfree_returns : bfree small_sb 5 five_given ≡ some (ok 0, after (bfree small_sb 5 five_given))
unfolding balloc bbm_alloc bbm_alloc_loop bcache_read bcache_getblk cache_request match_blkno take
    fetch reuse find_reusable is_reusable bm_find_first_zero scan_words first_zero_from get_bit
    bit_to_blkno bm_set_bit bcache_mark_dirty bcache_release clear_block bfree bbm_free bm_blk_no_of
    bit_idx_of bcache_invalidate bm_clear_bit
bfree_returns = refl

bfree-BlockFreed_example :
    BlockFreed small_sb 5 (ok 0) five_given (after (bfree small_sb 5 five_given))
bfree-BlockFreed_example =
    bfree-BlockFreed small_sb 5 (ok 0) five_given (after (bfree small_sb 5 five_given))
      small_sb-IsDisk five_given-BlockGiven.well five_given-BlockGiven.bytes (omega arith)
      bfree_returns

abbrev full_byte : Bytes
full_byte i = if i == 0 then 255 else 0

-- Inode 0 is a file of 5000 bytes, all in block 5.
abbrev small_fs : Fs
small_fs = record {
  sb = record {
    magic = 69;
    nb_blk = 100;
    blk_size = 4096;
    nb_ibm = 1;
    nb_dbm = 1;
    nb_itab = 1;
    nb_dblk = 90;
    ibm_start = 2;
    dbm_start = 3;
    itab_start = 4;
    data_start = 5;
  };
  cache = one_buffer;
  inode = λ i. record {
    ino = 1;
    refcnt = 1;
    valid = true;
    held = true;
    content = record {
      size = 5000;
      kind = 2;
      dev_id = 0;
      nblink = 1;
      dirblkno = λ n. 5;
      indir = 0;
    };
  };
  icache = 0 ∷ [];
}

inode_read-Amount_example :
    Amount kernel_buffer 20 (inode_read kernel_buffer 0 4090 20 small_fs (λ i. 0))
inode_read-Amount_example = inode_read-Amount kernel_buffer 0 4090 20 small_fs (λ i. 0)

read_loop-enough_fuel_example :
    read_loop kernel_buffer 20 0 4090 20 0 small_fs (λ i. 0)
    ≡ read_loop kernel_buffer 35 0 4090 20 0 small_fs (λ i. 0)
read_loop-enough_fuel_example =
    read_loop-enough_fuel kernel_buffer 20 35 0 4090 20 0 small_fs (λ i. 0) (omega arith)
      (omega arith)
