-- ===== src/Fs/Layout.antt =====
-- The entries of the inode table as bytes: `struct dinode` of src/include/kernel/fs_layout.h, 64
-- bytes, little-endian, with two bytes of padding behind `dev_id`.
use rv_mini_os.Prelude.{ℕ, zero, suc, ◌+◌, ◌*◌, ◌/◌, ◌%◌, update}
use rv_mini_os.Fs.Bcache.{Bytes}

-- `type` is the number of an `inode_type`.
pub record Dinode : Type 0 where
  pub size : ℕ
  pub kind : ℕ
  pub dev_id : ℕ
  pub nblink : ℕ
  pub dirblkno : ℕ → ℕ
  pub indir : ℕ

abbrev pub inode_free : ℕ
inode_free = 0

-- `FS_INODE_DIR_DBLKNO`, `FS_INODE_INDIR_DBLKNO` and `INODES_PER_BLK`
abbrev pub dir_dblkno : ℕ
dir_dblkno = 12

abbrev pub indir_dblkno : ℕ
indir_dblkno = 1024

abbrev pub inodes_per_blk : ℕ
inodes_per_blk = 64

-- a `uint32_t` at a position
unfoldable pub load32 : ℕ → Bytes → ℕ
load32 at buf = buf at + 256 * (buf (at + 1) + 256 * (buf (at + 2) + 256 * buf (at + 3)))

unfoldable pub store32 : (at v : ℕ) → Bytes → Bytes
store32 at v buf =
    update
      (update (update (update buf at (v % 256)) (at + 1) (v / 256 % 256)) (at + 2)
        (v / 65536 % 256))
      (at + 3) (v / 16777216 % 256)

unfoldable pub load_dinode : ℕ → Bytes → Dinode
load_dinode idx buf =
    let at = idx * 64 in
    record {
      size = load32 at buf;
      kind = buf (at + 4);
      dev_id = buf (at + 5);
      nblink = load32 (at + 8) buf;
      dirblkno = λ n. load32 (at + 12 + 4 * n) buf;
      indir = load32 (at + 60) buf;
    }

-- the block numbers that are left, and the index of the next one
unfoldable pub store_dirblkno : (rounds n at : ℕ) → (ℕ → ℕ) → Bytes → Bytes
store_dirblkno zero n at v buf = buf
store_dirblkno (suc rounds) n at v buf =
    store_dirblkno rounds (n + 1) at v (store32 (at + 4 * n) (v n) buf)

unfoldable pub store_dinode : ℕ → Dinode → Bytes → Bytes
store_dinode idx d buf =
    let at = idx * 64 in
    let b1 = store32 at d.size buf in
    let b2 = update (update b1 (at + 4) d.kind) (at + 5) d.dev_id in
    let b3 = store32 (at + 8) d.nblink b2 in
    store32 (at + 60) d.indir (store_dirblkno dir_dblkno 0 (at + 12) d.dirblkno b3)
