-- ===== src/Files.antt =====
-- Open files, src/kernel/core/fs/file.c. A file is named by its slot in `ftable`, and an inode by
-- its own. The callbacks of devices are parameters, named by their addresses; a call at NULL is
-- `none`, as are a wait and a panic. An offset is not negative, as `file_seek` keeps it.
pub mod Errors
mod Tests
use rv_mini_os.Prelude.{
  ℕ, zero, suc, ◌+◌, ◌-◌, ◌*◌, ◌/◌, ◌%◌, ◌^◌, Bool, true, false, not, ◌||◌, Option, none, some,
  List, [], ◌∷◌, ◌==◌, ltb, leb, if◌then◌else◌, update,
}
use rv_mini_os.Err.{Result, ok, err, eio, einval, ebadf, enfile}
use rv_mini_os.Vpages.{has_flag}
use rv_mini_os.Fs.Bcache.{Bytes}
use rv_mini_os.Fs.Inode.{Fs, Call, inode_get, inode_lock, inode_unlock, inode_mark_dirty}
use rv_mini_os.Fs.Blocks.{inode_put}
use rv_mini_os.Fs.ReadWrite.{Buffer, inode_read, inode_write}
use rv_mini_os.Fs.Paths.{inode_file, inode_device, fs_inode_from_path}

-- `file_reader` and `file_writer`, or the callback of a device
pub data Op : Type 0 where
  file_op : Op
  dev_op : ℕ → Op

pub record File : Type 0 where
  pub refcnt : ℕ
  pub i : ℕ
  pub off : ℕ
  pub mode : ℕ
  pub w_op : Op
  pub r_op : Op

pub record Files : Type 0 where
  pub fs : Fs
  pub root : ℕ
  pub ftable : ℕ → File
  pub dev_r : ℕ → ℕ
  pub dev_w : ℕ → ℕ

-- `FILE_MAX_NUM`, `O_R`, `O_W` and `O_CREAT`
abbrev pub file_max_num : ℕ
file_max_num = 100

abbrev pub o_r : ℕ
o_r = 1

abbrev pub o_w : ℕ
o_w = 2

abbrev pub o_creat : ℕ
o_creat = 8

abbrev pub set_file : ℕ → File → Files → Files
set_file f v w = record w { ftable = update w.ftable f v }

abbrev pub set_fs : Files → Fs → Files
set_fs w s = record w { fs = s }

-- the loop of `file_alloc`, with the rounds that are left
unfoldable pub alloc_loop : (rounds f : ℕ) → Files → Option ℕ
alloc_loop zero f w = none
alloc_loop (suc rounds) f w =
    let further = alloc_loop rounds (f + 1) w in
    if (w.ftable f).refcnt == 0 then some f else further

unfoldable pub file_alloc : Files → Option ℕ
file_alloc w = alloc_loop file_max_num 0 w

unfoldable pub file_clone : ℕ → Files → Option (Option ℕ × Files)
file_clone f w = elim (file_alloc w) [
  | none ↦ some (none, w)
  | some new ↦ elim (inode_get (w.fs.inode (w.ftable f).i).ino w.fs) [
    | none ↦ none
    | some (i, s) ↦
        some (some new, set_file new (record (w.ftable f) { i = i; refcnt = 1 }) (set_fs w s))
  ]
]

unfoldable pub file_put : ℕ → Files → Option Files
file_put f w =
    let file = w.ftable f in
    let w1 = set_file f (record file { refcnt = (file.refcnt + 2 ^ 32 - 1) % 2 ^ 32 }) w in
    if file.refcnt == 1
    then (elim (inode_put file.i w1.fs) [ none ↦ none | some s ↦ some (set_fs w1 s) ])
    else some w1

unfoldable pub file_get : ℕ → Files → ℕ × Files
file_get f w =
    let file = w.ftable f in (f, set_file f (record file { refcnt = (file.refcnt + 1) % 2 ^ 32 }) w)

unfoldable pub file_map_dev_cb : (dev_id w_op r_op : ℕ) → Files → Files
file_map_dev_cb dev_id w_op r_op w = record w {
  dev_r = update w.dev_r dev_id r_op;
  dev_w = update w.dev_w dev_id w_op;
}

unfoldable pub link_dev_cb : (f dev_id : ℕ) → Files → Files
link_dev_cb f dev_id w =
    set_file f
      (record (w.ftable f) { r_op = dev_op (w.dev_r dev_id); w_op = dev_op (w.dev_w dev_id) }) w

module _ {M : Type 0} (buffer : Buffer M) where
  abbrev pub Io : Type 0
  Io = Option (Result ℕ × (Files × M))

  abbrev pub on_lock : Files → M → Call → (Files → Io) → Io
  on_lock w m none f = none
  on_lock w m (some (err e, s)) f = some (err eio, (set_fs w s, m))
  on_lock w m (some (ok n, s)) f = f (set_fs w s)

  -- An error of `inode_read` is not passed on: the result is that of `inode_lock`, 0.
  abbrev pub after_read : ℕ → Files → Option (Result ℕ × (Fs × M)) → Io
  after_read f w none = none
  after_read f w (some (err e, (s, m))) = some (ok 0, (set_fs w (inode_unlock (w.ftable f).i s), m))
  after_read f w (some (ok readed, (s, m))) =
      let file = w.ftable f in
      some (
        ok readed,
        (
          set_file f (record file { off = file.off + readed }) (set_fs w (inode_unlock file.i s)),
          m,
        ),
      )

  -- The offset is passed on as a `uint32_t`.
  unfoldable pub file_reader : (f count : ℕ) → Files → M → Io
  file_reader f count w m =
      let file = w.ftable f in
      on_lock w m (inode_lock file.i w.fs)
        (λ w1. after_read f w1 (inode_read buffer file.i (file.off % 2 ^ 32) count w1.fs m))

  abbrev pub after_dirty : (f written : ℕ) → Files → M → Call → Io
  after_dirty f written w m none = none
  after_dirty f written w m (some (err e, s)) =
      some (err e, (set_fs w (inode_unlock (w.ftable f).i s), m))
  after_dirty f written w m (some (ok n, s)) =
      let file = w.ftable f in
      some (
        ok written,
        (
          set_file f (record file { off = file.off + written }) (set_fs w (inode_unlock file.i s)),
          m,
        ),
      )

  -- Nor is an error of `inode_write`.
  abbrev pub after_write : ℕ → Files → Option (Result ℕ × (Fs × M)) → Io
  after_write f w none = none
  after_write f w (some (err e, (s, m))) =
      some (ok 0, (set_fs w (inode_unlock (w.ftable f).i s), m))
  after_write f w (some (ok written, (s, m))) =
      after_dirty f written w m (inode_mark_dirty (w.ftable f).i s)

  unfoldable pub file_writer : (f count : ℕ) → Files → M → Io
  file_writer f count w m =
      let file = w.ftable f in
      on_lock w m (inode_lock file.i w.fs)
        (λ w1. after_write f w1 (inode_write buffer file.i (file.off % 2 ^ 32) count w1.fs m))

  -- a callback of a device, by its address, the file and the count
  module _ (device : (callback f count : ℕ) → Files → M → Io) where
    abbrev pub call_device : (callback f count : ℕ) → Files → M → Io
    call_device callback f count w m = if callback == 0 then none else device callback f count w m

    abbrev pub run_read : Op → (f count : ℕ) → Files → M → Io
    run_read file_op f count w m = file_reader f count w m
    run_read (dev_op callback) f count w m = call_device callback f count w m

    abbrev pub run_write : Op → (f count : ℕ) → Files → M → Io
    run_write file_op f count w m = file_writer f count w m
    run_write (dev_op callback) f count w m = call_device callback f count w m

    unfoldable pub file_write : (f count : ℕ) → Files → M → Io
    file_write f count w m =
        if not (has_flag (w.ftable f).mode o_w)
        then some (err ebadf, (w, m))
        else run_write (w.ftable f).w_op f count w m

    unfoldable pub file_read : (f count : ℕ) → Files → M → Io
    file_read f count w m =
        if not (has_flag (w.ftable f).mode o_r)
        then some (err ebadf, (w, m))
        else run_read (w.ftable f).r_op f count w m

-- the callbacks of an open file, from its inode
abbrev pub set_ops : (f i : ℕ) → Files → Files
set_ops f i w =
    let content = (w.fs.inode i).content in
    if content.kind == inode_device
    then link_dev_cb f content.dev_id w
    else set_file f (record (w.ftable f) { r_op = file_op; w_op = file_op }) w

-- `err_release_inode`
abbrev pub release_inode : (i e : ℕ) → Files → Fs → Option (Result ℕ × Files)
release_inode i e w s = elim (inode_put i s) [ none ↦ none | some s1 ↦ some (err e, set_fs w s1) ]

-- `O_MODE_MASK` is 7.
abbrev pub fill_file : (f i flags : ℕ) → Files → Call → Option (Result ℕ × Files)
fill_file f i flags w none = none
fill_file f i flags w (some (err e, s)) = release_inode i e w s
fill_file f i flags w (some (ok n, s)) =
    let w1 = set_ops f i (set_fs w s) in
    let w2 = set_fs w1 (inode_unlock i w1.fs) in
    some
      (ok f, set_file f (record (w2.ftable f) { i = i; mode = flags % 8; off = 0; refcnt = 1 }) w2)

abbrev pub open_inode : (flags : ℕ) → Files → Call → Option (Result ℕ × Files)
open_inode flags w none = none
open_inode flags w (some (err e, s)) = some (err e, set_fs w s)
open_inode flags w (some (ok i, s)) = elim (file_alloc w) [
  | none ↦ release_inode i enfile w s
  | some f ↦ fill_file f i flags w (inode_lock i s)
]

unfoldable pub file_open :
    (junk : Bytes) (path : List ℕ) (flags : ℕ) → Files → Option (Result ℕ × Files)
file_open junk path flags w =
    open_inode flags w
      (fs_inode_from_path junk w.root path (has_flag flags o_creat) inode_file w.fs)

-- an offset that is not negative, or the size of what is below 0
pub data Offset : Type 0 where
  forward : ℕ → Offset
  backward : ℕ → Offset

-- a position and a move, as `none` where it is negative
abbrev pub move : ℕ → Offset → Option ℕ
move at (forward n) = some (at + n)
move at (backward n) = if ltb at n then none else some (at - n)

abbrev pub seek_to : ℕ → Files → Option ℕ → Option (Result ℕ × Files)
seek_to f w none = some (err einval, w)
seek_to f w (some next) = some (ok next, set_file f (record (w.ftable f) { off = next }) w)

abbrev pub seek_end : ℕ → Offset → Files → Call → Option (Result ℕ × Files)
seek_end f offset w none = none
seek_end f offset w (some (err e, s)) = some (err e, set_fs w s)
seek_end f offset w (some (ok n, s)) =
    let i = (w.ftable f).i in
    seek_to f (set_fs w (inode_unlock i s)) (move (s.inode i).content.size offset)

-- `SEEK_SET`, `SEEK_CUR` and `SEEK_END`. A sum that is out of 64 bits is left out.
unfoldable pub file_seek : ℕ → Offset → (whence : ℕ) → Files → Option (Result ℕ × Files)
file_seek f offset whence w =
    if whence == 1
    then seek_to f w (move 0 offset)
    else if whence == 2
    then seek_to f w (move (w.ftable f).off offset)
    else if whence == 4
    then seek_end f offset w (inode_lock (w.ftable f).i w.fs)
    else some (err einval, w)
