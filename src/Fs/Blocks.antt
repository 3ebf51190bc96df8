-- ===== src/Fs/Blocks.antt =====
-- The blocks of a file and the life of an inode: the second half of src/kernel/core/fs/inode.c, but
-- for reading and writing files.
use rv_mini_os.Prelude.{
  ℕ, zero, suc, ◌+◌, ◌-◌, ◌*◌, ◌%◌, ◌^◌, false, ◌&&◌, Option, none, some, ◌==◌, ltb, leb,
  if◌then◌else◌, update,
}
use rv_mini_os.Err.{Result, ok, err, efbig}
use rv_mini_os.Fs.Bcache.{bcache_mark_dirty}
use rv_mini_os.Fs.Balloc.{balloc, bfree}
use rv_mini_os.Fs.Layout.{inode_free, dir_dblkno, indir_dblkno, load32, store32}
use rv_mini_os.Fs.Inode.{
  Fs, Call, on_ok, on_result, on_cache, read_blk, blk_buf, release_blk, write_blk, set_inode,
  set_content, ibm_alloc, ibm_free, inode_get, lock_inode, inode_unlock, inode_lock, mark_dirty,
}

-- An `int32_t` result kept in a `uint32_t`, and a `uint32_t` returned as an `int32_t`.
abbrev pub to_word : Result ℕ → ℕ
to_word (ok n) = n
to_word (err e) = 2 ^ 32 - e

abbrev pub of_word : ℕ → Result ℕ
of_word x = if ltb x (2 ^ 31) then ok x else err (2 ^ 32 - x)

-- the loop of `release_dir_blk_locked`, with the rounds that are left
unfoldable pub release_dir_loop : (rounds idx i : ℕ) → Fs → Call
release_dir_loop zero idx i s = some (ok 0, s)
release_dir_loop (suc rounds) idx i s =
    let d = (s.inode i).content in
    let blkno = d.dirblkno idx in
    let s1 = set_content i (record d { dirblkno = update d.dirblkno idx 0 }) s in
    let freed : Call =
      if blkno == 0 then some (ok 0, s) else on_cache s1 (bfree s1.sb blkno s1.cache) in
    on_ok freed (λ n s2. release_dir_loop rounds (idx + 1) i s2)

unfoldable pub release_dir_blk : ℕ → Fs → Call
release_dir_blk i s = release_dir_loop dir_dblkno 0 i s

-- The loop of `release_indir_locked` over the block numbers in buffer `b`. The results of `bfree`
-- are not looked at.
unfoldable pub release_indir_loop : (rounds idx b : ℕ) → Fs → Call
release_indir_loop zero idx b s = some (ok 0, s)
release_indir_loop (suc rounds) idx b s =
    let blkno = load32 (4 * idx) (blk_buf b s) in
    let c = s.cache in
    let s1 = record s {
      cache = record c {
        cblk = update c.cblk b (record (c.cblk b) { buf = store32 (4 * idx) 0 (blk_buf b s) });
      };
    } in
    let freed : Call =
      if blkno == 0 then some (ok 0, s) else on_cache s1 (bfree s1.sb blkno s1.cache) in
    on_result freed (λ r s2. release_indir_loop rounds (idx + 1) b s2)

unfoldable pub release_indir : ℕ → Fs → Call
release_indir i s = on_ok (read_blk (s.inode i).content.indir s) (λ b s1.
    on_ok (release_indir_loop indir_dblkno 0 b s1)
      (λ n s2. some (ok 0, release_blk b (record s2 { cache = bcache_mark_dirty b s2.cache }))))

-- The test for an error of `balloc` never holds, so the error is stored as a block number.
unfoldable pub get_dir_blk : (i nth : ℕ) → Fs → Call
get_dir_blk i nth s =
    let blkno = (s.inode i).content.dirblkno nth in
    if blkno == 0
    then on_result (on_cache s (balloc s.sb s.cache)) (λ r s1.
      let d = (s1.inode i).content in
      some (
        of_word (to_word r),
        set_content i (record d { dirblkno = update d.dirblkno nth (to_word r) }) s1,
      ))
    else some (of_word blkno, s)

unfoldable pub get_indir_blk : (i nth : ℕ) → Fs → Call
get_indir_blk i nth s =
    let at = 4 * (nth - dir_dblkno) in
    on_ok (read_blk (s.inode i).content.indir s) (λ b s1.
      let blkno = load32 at (blk_buf b s1) in
      if blkno == 0
      then on_result (on_cache s1 (balloc s1.sb s1.cache)) (λ r s2. some (
        of_word (to_word r),
        release_blk b (write_blk b (store32 at (to_word r) (blk_buf b s2)) s2),
      ))
      else some (of_word blkno, release_blk b s1))

unfoldable pub get_data : (i nth : ℕ) → Fs → Call
get_data i nth s =
    if leb (dir_dblkno + indir_dblkno) nth
    then some (err efbig, s)
    else if ltb nth dir_dblkno
    then get_dir_blk i nth s
    else get_indir_blk i nth s

unfoldable pub truncate : ℕ → Fs → Call
truncate i s = on_ok (release_dir_blk i s) (λ n s1.
    on_ok (release_indir i s1)
      (λ m s2. some (ok 0, set_content i (record ((s2.inode i).content) { size = 0 }) s2)))

unfoldable pub inode_truncate : ℕ → Fs → Call
inode_truncate i s = on_ok (inode_lock i s) (λ n s1.
    on_result (on_ok (truncate i s1) (λ m s2. mark_dirty i s2))
      (λ r s3. some (r, inode_unlock i s3)))

-- The part of `inode_put` for the last reference, with the mutex held. Failures panic.
unfoldable pub delete_unlinked : ℕ → Fs → Option Fs
delete_unlinked i s =
    let unlinked = (s.inode i).content.nblink == 0 in
    let gone = on_ok (truncate i s) (λ n s1.
      on_ok (mark_dirty i (set_content i (record ((s1.inode i).content) { kind = inode_free }) s1))
        (λ m s2.
          on_result (ibm_free (s2.inode i).ino s2)
            (λ r s3. some (ok 0, set_inode i (record (s3.inode i) { valid = false }) s3)))) in
    if (s.inode i).valid && unlinked
    then (elim gone [ none ↦ none | some (err e, s4) ↦ none | some (ok n, s4) ↦ some s4 ])
    else some s

abbrev pub drop_ref : ℕ → Fs → Fs
drop_ref i s =
    set_inode i (record (s.inode i) { refcnt = ((s.inode i).refcnt + 2 ^ 32 - 1) % 2 ^ 32 }) s

abbrev pub finish_put : ℕ → Option Fs → Option Fs
finish_put i none = none
finish_put i (some s) = some (drop_ref i (inode_unlock i s))

unfoldable pub inode_put : ℕ → Fs → Option Fs
inode_put i s =
    let last : Option Fs = elim (lock_inode i s) [
      | none ↦ none
      | some s1 ↦ finish_put i (delete_unlinked i s1)
    ] in
    if (s.inode i).refcnt == 1 then last else some (drop_ref i s)

-- `err_put` of `inode_create`
unfoldable pub undo_create : (i id e : ℕ) → Fs → Call
undo_create i id e s = elim (inode_put i s) [
  | none ↦ none
  | some s1 ↦ on_result (ibm_free id s1) (λ r s2. some (err e, s2))
]

-- the part of `inode_create` with the inode locked
unfoldable pub fill_created : (i id kind : ℕ) → Fs → Call
fill_created i id kind s =
    let s1 = set_content i (record ((s.inode i).content) { kind = kind; nblink = 1 }) s in
    on_result (mark_dirty i s1) (λ r s2. elim r [
      | ok n ↦ some (ok i, inode_unlock i s2)
      | err e ↦
          let s3 = set_inode i (record (s2.inode i) { valid = false }) s2 in
          undo_create i id e (inode_unlock i s3)
    ])

unfoldable pub inode_create : ℕ → Fs → Call
inode_create kind s = on_ok (ibm_alloc s) (λ id s1. elim (inode_get id s1) [
  | none ↦ none
  | some (i, s2) ↦
      on_result (inode_lock i s2)
        (λ r s3. elim r [ ok n ↦ fill_created i id kind s3 | err e ↦ undo_create i id e s3 ])
])
