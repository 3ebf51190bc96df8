-- ===== src/Fs/Inode.antt =====
-- src/kernel/core/fs/inode.c, but for reading and writing files. An inode in memory is named by its
-- slot. As in Bcache one task runs, a held mutex makes it wait, and `none` is a wait or a panic.
use rv_mini_os.Prelude.{
  ℕ, zero, suc, ◌+◌, ◌*◌, ◌/◌, ◌%◌, ◌^◌, Bool, true, false, Option, none, some, List, ◌∷◌, ◌==◌,
  leb, if◌then◌else◌, update, find?,
}
use mathlib.Core.List.{reverse}
use rv_mini_os.Err.{Result, ok, err, eio, einval, enospc}
use rv_mini_os.Task.{without}
use rv_mini_os.Fs.Bcache.{no_blkno, Bytes, Cache, bcache_read, bcache_release, bcache_mark_dirty}
use rv_mini_os.Fs.Bitmap.{bm_find_first_zero, bm_set_bit, bm_clear_bit}
use rv_mini_os.Fs.Balloc.{FsMeta, bits_per_blk, write_buf}
use rv_mini_os.Fs.Layout.{Dinode, inodes_per_blk, load_dinode, store_dinode}

pub record Inode : Type 0 where
  pub ino : ℕ
  pub refcnt : ℕ
  pub valid : Bool
  pub held : Bool
  pub content : Dinode

pub record Fs : Type 0 where
  pub sb : FsMeta
  pub cache : Cache
  pub inode : ℕ → Inode
  pub icache : List ℕ

-- A call that fails with an error, or that waits or panics.
abbrev pub Call : Type 0
Call = Option (Result ℕ × Fs)

abbrev pub on_ok : Call → (ℕ → Fs → Call) → Call
on_ok none f = none
on_ok (some (err e, s)) f = some (err e, s)
on_ok (some (ok n, s)) f = f n s

-- whatever the result
abbrev pub on_result : Call → (Result ℕ → Fs → Call) → Call
on_result none f = none
on_result (some (r, s)) f = f r s

abbrev pub on_cache : Fs → Option (Result ℕ × Cache) → Call
on_cache s none = none
on_cache s (some (r, c)) = some (r, record s { cache = c })

-- `bcache_read`, with EIO where it gives NULL
abbrev pub got_blk : Fs → Option (Option ℕ × Cache) → Call
got_blk s none = none
got_blk s (some (none, c)) = some (err eio, record s { cache = c })
got_blk s (some (some b, c)) = some (ok b, record s { cache = c })

abbrev pub read_blk : ℕ → Fs → Call
read_blk blkno s = got_blk s (bcache_read blkno s.cache)

abbrev pub blk_buf : ℕ → Fs → Bytes
blk_buf b s = (s.cache.cblk b).buf

abbrev pub release_blk : ℕ → Fs → Fs
release_blk b s = record s { cache = bcache_release b s.cache }

-- a change of the bytes of a block that is marked as dirty
abbrev pub write_blk : ℕ → Bytes → Fs → Fs
write_blk b v s = record s { cache = bcache_mark_dirty b (write_buf b v s.cache) }

abbrev pub set_inode : ℕ → Inode → Fs → Fs
set_inode i v s = record s { inode = update s.inode i v }

abbrev pub set_content : ℕ → Dinode → Fs → Fs
set_content i d s = set_inode i (record (s.inode i) { content = d }) s

unfoldable pub get_itab_blkno : FsMeta → ℕ → Result ℕ
get_itab_blkno sb ino =
    let tab_blkno = (sb.itab_start + ino / inodes_per_blk) % 2 ^ 32 in
    if leb ((sb.nb_itab + sb.itab_start) % 2 ^ 32) tab_blkno then err einval else ok tab_blkno

unfoldable pub get_tab_idx : ℕ → ℕ
get_tab_idx ino = ino % inodes_per_blk

unfoldable pub bit_to_inode_id : (bit_idx bm_nb : ℕ) → ℕ
bit_to_inode_id bit_idx bm_nb = (bit_idx + bm_nb * bits_per_blk) % 2 ^ 32

unfoldable pub nb_inodes : FsMeta → ℕ
nb_inodes sb = sb.nb_itab * inodes_per_blk % 2 ^ 32

-- the loop of `inode_init`, with the rounds that are left
unfoldable pub inode_init_loop : (rounds i : ℕ) → Fs → Fs
inode_init_loop zero i s = s
inode_init_loop (suc rounds) i s =
    let s1 = set_inode i (record (s.inode i) { ino = no_blkno; held = false }) s in
    inode_init_loop rounds (i + 1) (record s1 { icache = i ∷ s1.icache })

-- 64 is `INODE_CACHE_SIZE`, and UINT32_MAX names no inode.
unfoldable pub inode_init : Fs → Fs
inode_init s = inode_init_loop 64 0 s

-- the loop of `ibm_alloc`, with the rounds that are left
unfoldable pub ibm_alloc_loop : (rounds i : ℕ) → Fs → Call
ibm_alloc_loop zero i s = some (err enospc, s)
ibm_alloc_loop (suc rounds) i s = on_ok (read_blk ((s.sb.ibm_start + i) % 2 ^ 32) s) (λ b s1.
    let further = ibm_alloc_loop rounds (i + 1) (release_blk b s1) in
    elim (bm_find_first_zero (blk_buf b s1) bits_per_blk) [
      | none ↦ further
      | some bit_idx ↦
          let id = bit_to_inode_id bit_idx i in
          if leb (nb_inodes s1.sb) id
          then some (err enospc, release_blk b s1)
          else some (ok id, release_blk b (write_blk b (bm_set_bit (blk_buf b s1) bit_idx) s1))
    ])

unfoldable pub ibm_alloc : Fs → Call
ibm_alloc s = ibm_alloc_loop s.sb.nb_ibm 0 s

unfoldable pub ibm_free : ℕ → Fs → Call
ibm_free id s =
    if leb (nb_inodes s.sb) id
    then some (err einval, s)
    else on_ok (read_blk ((s.sb.ibm_start + id / bits_per_blk) % 2 ^ 32) s) (λ b s1.
      some (ok 0, release_blk b (write_blk b (bm_clear_bit (blk_buf b s1) (id % bits_per_blk)) s1)))

unfoldable pub match_id : ℕ → Fs → ℕ → Bool
match_id id s i = (s.inode i).ino == id

unfoldable pub no_refs : Fs → ℕ → Bool
no_refs s i = (s.inode i).refcnt == 0

-- A hit becomes the first slot of the list. `none` is the panic when no slot is left.
unfoldable pub inode_get : ℕ → Fs → Option (ℕ × Fs)
inode_get id s = elim (find? (match_id id s) s.icache) [
  | some i ↦
      let s1 = set_inode i (record (s.inode i) { refcnt = ((s.inode i).refcnt + 1) % 2 ^ 32 }) s in
      some (i, record s1 { icache = i ∷ without i s1.icache })
  | none ↦ elim (find? (no_refs s) (reverse s.icache)) [
    | none ↦ none
    | some i ↦ some (i, set_inode i (record (s.inode i) { ino = id; refcnt = 1; valid = false }) s)
  ]
]

-- the mutex of an inode
unfoldable pub lock_inode : ℕ → Fs → Option Fs
lock_inode i s =
    if (s.inode i).held then none else some (set_inode i (record (s.inode i) { held = true }) s)

unfoldable pub inode_unlock : ℕ → Fs → Fs
inode_unlock i s = set_inode i (record (s.inode i) { held = false }) s

-- The part of `inode_lock` that loads the entry. Only a failed read frees the mutex.
unfoldable pub load_inode : ℕ → Fs → Call
load_inode i s = elim (get_itab_blkno s.sb (s.inode i).ino) [
  | err e ↦ some (err e, s)
  | ok itab_blkno ↦ elim (read_blk itab_blkno s) [
    | none ↦ none
    | some (err e, s1) ↦ some (err e, inode_unlock i s1)
    | some (ok b, s1) ↦
        let entry = load_dinode (get_tab_idx (s1.inode i).ino) (blk_buf b s1) in
        let s2 = release_blk b (set_content i entry s1) in
        some (ok 0, set_inode i (record (s2.inode i) { valid = true }) s2)
  ]
]

unfoldable pub inode_lock : ℕ → Fs → Call
inode_lock i s = elim (lock_inode i s) [
  | none ↦ none
  | some s1 ↦ if (s1.inode i).valid then some (ok 0, s1) else load_inode i s1
]

unfoldable pub mark_dirty : ℕ → Fs → Call
mark_dirty i s = elim (get_itab_blkno s.sb (s.inode i).ino) [
  | err e ↦ some (err e, s)
  | ok itab_blkno ↦ on_ok (read_blk itab_blkno s) (λ b s1.
      let idx = get_tab_idx (s1.inode i).ino in
      some (
        ok 0,
        release_blk b (write_blk b (store_dinode idx (s1.inode i).content (blk_buf b s1)) s1),
      ))
]

-- A call without the lock panics.
unfoldable pub inode_mark_dirty : ℕ → Fs → Call
inode_mark_dirty i s = if (s.inode i).held then mark_dirty i s else none
