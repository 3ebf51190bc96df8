-- ===== src/Fs.antt =====
-- The file system below inodes: the block cache and the allocation of blocks.
pub mod Bcache
pub mod Bitmap
pub mod Balloc
pub mod Layout
pub mod Inode
pub mod Blocks
pub mod Amount
pub mod Paths
pub mod Contents
pub mod Kept
pub mod Transparent
pub mod Writes
pub mod Synced
pub mod Used
pub mod Allocated
pub mod Freed
pub mod BlockGiven
pub mod Invalid
pub mod ReadBack
pub mod ReadWrite
pub mod FirstZero
mod Tests
pub mod Bits
