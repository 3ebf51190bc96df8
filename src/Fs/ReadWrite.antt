-- ===== src/Fs/ReadWrite.antt =====
-- Reading and writing files: the end of src/kernel/core/fs/inode.c. What is read goes to a buffer
-- of the kernel, or of the user by its page tables; the calls are the same for both, so the buffer
-- is an interface. `none` is a wait or a panic, as in Inode.
use rv_mini_os.Prelude.{
  ℕ, zero, suc, ◌+◌, ◌-◌, ◌*◌, ◌/◌, ◌%◌, ◌^◌, Option, none, some, List, [], ◌∷◌, ◌==◌, ltb, leb,
  if◌then◌else◌, min, update,
}
use rv_mini_os.Err.{Result, ok, err, einval, efbig}
use rv_mini_os.Pages.{Pages}
use rv_mini_os.Vpages.Copy.{vpage_copyin, vpage_copyout}
use rv_mini_os.Fs.Bcache.{Bytes}
use rv_mini_os.Fs.Inode.{
  Fs, Call, read_blk, blk_buf, release_blk, write_blk, set_content, inode_mark_dirty,
}
use rv_mini_os.Fs.Blocks.{get_data}

-- A buffer is in a memory `M`; a copy is of bytes from a position of the buffer on.
pub record Buffer (M : Type 0) : Type 0 where
  pub store : (pos : ℕ) → List ℕ → M → Option (Result ℕ × M)
  pub load : (pos count : ℕ) → M → Option (Result (List ℕ) × M)

-- the `count` bytes from a position on, and a copy of bytes to a position
abbrev pub bytes_from : (count pos : ℕ) → Bytes → List ℕ
bytes_from zero pos buf = []
bytes_from (suc count) pos buf = buf pos ∷ bytes_from count (pos + 1) buf

abbrev pub copy_bytes : (pos : ℕ) → List ℕ → Bytes → Bytes
copy_bytes pos [] buf = buf
copy_bytes pos (b ∷ bs) buf = copy_bytes (pos + 1) bs (update buf pos b)

-- a buffer of the kernel (`memcpy`)
abbrev pub kernel_buffer : Buffer Bytes
kernel_buffer = record {
  store = λ pos bs m. some (ok 0, copy_bytes pos bs m);
  load = λ pos count m. some (ok (bytes_from count pos m), m);
}

-- a buffer at the address `va` of the active task
abbrev pub user_buffer : (root va : ℕ) → Buffer Pages
user_buffer root va = record {
  store = λ pos bs m. vpage_copyout root (va + pos) bs m;
  load = λ pos count m. vpage_copyin root (va + pos) count m;
}

-- `FS_BLK_SIZE` and `FS_MAX_FILE_SIZE`
abbrev pub blk_size : ℕ
blk_size = 4096

abbrev pub max_file_size : ℕ
max_file_size = (12 + 1024) * blk_size

module _ {M : Type 0} (buffer : Buffer M) where
  -- The bytes that are done and the last result, where a loop ends.
  abbrev pub Copied : Type 0
  Copied = Option ((ℕ × Result ℕ) × (Fs × M))

  -- `done ? done : res`
  abbrev pub done_or : ℕ × Result ℕ → Result ℕ
  done_or (done, res) = if done == 0 then res else ok done

  abbrev pub on_call : (done : ℕ) → M → Call → (ℕ → Fs → Copied) → Copied
  on_call done m none f = none
  on_call done m (some (err e, s)) f = some ((done, err e), (s, m))
  on_call done m (some (ok n, s)) f = f n s

  -- what follows the copy of the bytes of a block
  abbrev pub read_copied : (done b : ℕ) → Fs → Option (Result ℕ × M) → (Fs → M → Copied) → Copied
  read_copied done b s none next = none
  read_copied done b s (some (err e, m)) next = some ((done, err e), (release_blk b s, m))
  read_copied done b s (some (ok n, m)) next = next (release_blk b s) m

  -- One round of `inode_read`, of `size` bytes, and what the loop does then.
  unfoldable pub read_round : (i offset done size : ℕ) → (Fs → M → Copied) → Fs → M → Copied
  read_round i offset done size next s m =
      on_call done m (get_data i (offset / blk_size) s) (λ dblkno s1.
        on_call done m (read_blk dblkno s1) (λ b s2.
          read_copied done b s2
            (buffer.store done (bytes_from size (offset % blk_size) (blk_buf b s2)) m) next))

  -- the bytes that are processed in the block
  abbrev pub part : (offset count done : ℕ) → ℕ
  part offset count done = min (count - done) (blk_size - offset % blk_size)

  unfoldable pub read_loop : (fuel i offset count done : ℕ) → Fs → M → Copied
  read_loop zero i offset count done s m = some ((done, ok 0), (s, m))
  read_loop (suc fuel) i offset count done s m =
      let size = part offset count done in
      let round =
        read_round i offset done size
          (λ s1 m1. read_loop fuel i ((offset + size) % 2 ^ 32) count (done + size) s1 m1) s m in
      if leb count done then some ((done, ok 0), (s, m)) else round

  abbrev pub read_end : Copied → Option (Result ℕ × (Fs × M))
  read_end none = none
  read_end (some (r, w)) = some (done_or r, w)

  -- `offset` is a `uint32_t` and `count` a `size_t`, so their sum has 64 bits.
  unfoldable pub inode_read : (i offset count : ℕ) → Fs → M → Option (Result ℕ × (Fs × M))
  inode_read i offset count s m =
      if ltb (s.inode i).content.size ((offset + count) % 2 ^ 64)
      then some (err einval, (s, m))
      else read_end (read_loop count i offset count 0 s m)

  abbrev pub write_copied :
      (offset done b : ℕ)
      → Fs
      → Option (Result (List ℕ) × M)
      → (Fs → M → Option ((ℕ × Result ℕ) × (ℕ × (Fs × M))))
      → Option ((ℕ × Result ℕ) × (ℕ × (Fs × M)))
  write_copied offset done b s none next = none
  write_copied offset done b s (some (err e, m)) next =
      some ((done, err e), (offset, (release_blk b s, m)))
  write_copied offset done b s (some (ok bs, m)) next =
      next (release_blk b (write_blk b (copy_bytes (offset % blk_size) bs (blk_buf b s)) s)) m

  -- The loop of `inode_write` also leaves the offset, for the size of the file.
  abbrev pub Written : Type 0
  Written = Option ((ℕ × Result ℕ) × (ℕ × (Fs × M)))

  abbrev pub on_write_call : (offset done : ℕ) → M → Call → (ℕ → Fs → Written) → Written
  on_write_call offset done m none f = none
  on_write_call offset done m (some (err e, s)) f = some ((done, err e), (offset, (s, m)))
  on_write_call offset done m (some (ok n, s)) f = f n s

  unfoldable pub write_round : (i offset done size : ℕ) → (Fs → M → Written) → Fs → M → Written
  write_round i offset done size next s m =
      on_write_call offset done m (get_data i (offset / blk_size) s) (λ dblkno s1.
        on_write_call offset done m (read_blk dblkno s1)
          (λ b s2. write_copied offset done b s2 (buffer.load done size m) next))

  unfoldable pub write_loop : (fuel i offset count done : ℕ) → Fs → M → Written
  write_loop zero i offset count done s m = some ((done, ok 0), (offset, (s, m)))
  write_loop (suc fuel) i offset count done s m =
      let size = part offset count done in
      let round =
        write_round i offset done size
          (λ s1 m1. write_loop fuel i ((offset + size) % 2 ^ 32) count (done + size) s1 m1) s m in
      if leb count done then some ((done, ok 0), (offset, (s, m))) else round

  -- The file grows up to the offset. The result of `inode_mark_dirty` is not looked at.
  abbrev pub grow : (i offset : ℕ) → Fs → Option Fs
  grow i offset s =
      let d = (s.inode i).content in
      let dirty = inode_mark_dirty i (set_content i (record d { size = offset }) s) in
      if ltb d.size offset then (elim dirty [ none ↦ none | some (r, s1) ↦ some s1 ]) else some s

  abbrev pub write_end : (i : ℕ) → Written → Option (Result ℕ × (Fs × M))
  write_end i none = none
  write_end i (some (r, (offset, (s, m)))) = elim (grow i offset s) [
    | none ↦ none
    | some s1 ↦ some (done_or r, (s1, m))
  ]

  unfoldable pub inode_write : (i offset count : ℕ) → Fs → M → Option (Result ℕ × (Fs × M))
  inode_write i offset count s m =
      if ltb (s.inode i).content.size offset
      then some (err einval, (s, m))
      else if ltb max_file_size ((offset + count) % 2 ^ 64)
      then some (err efbig, (s, m))
      else write_end i (write_loop count i offset count 0 s m)
