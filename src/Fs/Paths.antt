-- ===== src/Fs/Paths.antt =====
-- Directories and paths: src/kernel/core/fs/fs.c. A name is the list of its bytes without the final
-- NUL, and a path is shorter than `FS_MAX_PATH`, as its callers have it. `none` is a wait, a panic,
-- or a buffer at NULL. `junk` is what an entry holds before it is filled.
use rv_mini_os.Prelude.{
  ℕ, zero, suc, ◌+◌, ◌/◌, ◌%◌, ◌^◌, Bool, true, false, not, Option, none, some, List, [], ◌∷◌, ◌++◌,
  ◌==◌, ltb, if◌then◌else◌, length,
}
use rv_mini_os.Err.{Result, ok, err, eio, einval, enoent, enotdir, enametoolong}
use rv_mini_os.Fs.Bcache.{Bytes}
use rv_mini_os.Fs.Balloc.{FsMeta}
use rv_mini_os.Fs.Layout.{load32, store32}
use rv_mini_os.Fs.Inode.{
  Fs, Call, on_ok, on_result, read_blk, blk_buf, release_blk, set_content, inode_get, inode_init,
  inode_lock, inode_unlock, inode_mark_dirty,
}
use rv_mini_os.Fs.Blocks.{inode_put, inode_create}
use rv_mini_os.Fs.ReadWrite.{kernel_buffer, copy_bytes, inode_read, inode_write}

-- `INODE_DIRECTORY`, `INODE_FILE` and `INODE_DEVICE`
abbrev pub inode_directory : ℕ
inode_directory = 1

abbrev pub inode_file : ℕ
inode_file = 2

abbrev pub inode_device : ℕ
inode_device = 4

-- `FS_SUPERBLK`, `FS_MAGIC_NUMBER`, `FS_ROOT_INODE_ID` and `MAXNAME`
abbrev pub superblk : ℕ
superblk = 1

abbrev pub magic_number : ℕ
magic_number = 69

abbrev pub root_inode_id : ℕ
root_inode_id = 1

abbrev pub maxname : ℕ
maxname = 16

-- The slot of the root is given, where the code keeps it in `root`.
unfoldable pub set_root : Fs → Call
set_root s = elim (inode_get root_inode_id s) [
  | none ↦ none
  | some (root, s1) ↦ on_ok (inode_lock root s1) (λ n s2.
      if (s2.inode root).content.kind == inode_directory
      then some (ok root, inode_unlock root s2)
      else some (err eio, inode_unlock root s2))
]

-- `struct fs_meta` as bytes
unfoldable pub load_meta : Bytes → FsMeta
load_meta buf = record {
  magic = load32 0 buf;
  nb_blk = load32 4 buf;
  blk_size = load32 8 buf;
  nb_ibm = load32 12 buf;
  nb_dbm = load32 16 buf;
  nb_itab = load32 20 buf;
  nb_dblk = load32 24 buf;
  ibm_start = load32 28 buf;
  dbm_start = load32 32 buf;
  itab_start = load32 36 buf;
  data_start = load32 40 buf;
}

-- A block that cannot be read is released at NULL.
unfoldable pub check_format : Fs → Call
check_format s = elim (read_blk superblk s) [
  | none ↦ none
  | some (err e, s1) ↦ none
  | some (ok b, s1) ↦
      let s2 = record s1 { sb = load_meta (blk_buf b s1) } in
      if not (s2.sb.magic == magic_number)
      then some (err eio, release_blk b s2)
      else if not (s2.sb.blk_size == 4096)
      then some (err eio, release_blk b s2)
      else some (ok 0, release_blk b s2)
]

-- the part of `fs_init` behind `bcache_init`
unfoldable pub fs_init : Fs → Call
fs_init s = on_ok (check_format s) (λ n s1. set_root (inode_init s1))

abbrev pub unlock_with : (dir : ℕ) → Result ℕ → Fs → Call
unlock_with dir r s = some (r, inode_unlock dir s)

-- `struct dirent` has 20 bytes.
unfoldable pub new_entry : (junk : Bytes) (name : List ℕ) (inum : ℕ) → Bytes
new_entry junk name inum = store32 maxname inum (copy_bytes 0 (name ++ 0 ∷ []) junk)

-- what a call on a file leaves of the memory of its buffer
abbrev pub forget : {M : Type 0} → Option (Result ℕ × (Fs × M)) → Call
forget none = none
forget (some (r, (s, m))) = some (r, s)

-- The number of bytes is given, where the code gives a result that is not negative.
unfoldable pub dir_add_entry : (junk : Bytes) (dir : ℕ) (name : List ℕ) (inum : ℕ) → Fs → Call
dir_add_entry junk dir name inum s =
    if ltb maxname (length name + 1)
    then some (err enametoolong, s)
    else on_ok (inode_lock dir s) (λ n s1.
      on_result
        (forget (
          inode_write kernel_buffer dir (s1.inode dir).content.size 20 s1
            (new_entry junk name inum)))
        (unlock_with dir))

-- `strncmp` of two names that gives 0; a name ends in NUL.
unfoldable pub same_name : (rounds at : ℕ) → Bytes → List ℕ → Bool
same_name zero at entry name = true
same_name (suc rounds) at entry [] = entry at == 0
same_name (suc rounds) at entry (c ∷ name) =
    let rest = same_name rounds (at + 1) entry name in if entry at == c then rest else false

abbrev pub on_read : Option (Result ℕ × (Fs × Bytes)) → (Bytes → Fs → Call) → Call
on_read none f = none
on_read (some (err e, (s, m))) f = some (err e, s)
on_read (some (ok n, (s, m))) f = f m s

-- The loop of `dir_lookup` over the entries, with the rounds that are left. The slot of the inode is
-- given, where the code stores it and gives 0.
unfoldable pub lookup_loop : (rounds off dir : ℕ) (name : List ℕ) → Bytes → Fs → Call
lookup_loop zero off dir name entry s = some (err enoent, s)
lookup_loop (suc rounds) off dir name entry s =
    let round = on_read (inode_read kernel_buffer dir off 20 s entry) (λ entry' s1.
      let further = lookup_loop rounds (off + 20) dir name entry' s1 in
      if load32 maxname entry' == 0
      then further
      else if same_name maxname 0 entry' name
      then (elim (inode_get (load32 maxname entry') s1) [
        | none ↦ none
        | some (i, s2) ↦ some (ok i, s2)
      ])
      else further) in
    if ltb off (s.inode dir).content.size then round else some (err enoent, s)

unfoldable pub dir_lookup : (junk : Bytes) (dir : ℕ) (name : List ℕ) → Fs → Call
dir_lookup junk dir name s = on_ok (inode_lock dir s) (λ n s1.
    if not ((s1.inode dir).content.kind == inode_directory)
    then some (err enotdir, inode_unlock dir s1)
    else on_result (lookup_loop ((s1.inode dir).content.size / 20 + 1) 0 dir name junk s1)
        (unlock_with dir))

-- `err_release_curr`
abbrev pub release_curr : (curr e : ℕ) → Fs → Call
release_curr curr e s = elim (inode_put curr s) [ none ↦ none | some s1 ↦ some (err e, s1) ]

-- A name that is missing is made, as a directory if another name follows.
unfoldable pub create_entry : (junk : Bytes) (curr : ℕ) (name : List ℕ) (kind : ℕ) → Fs → Call
create_entry junk curr name kind s = on_ok (inode_create kind s) (λ created s1.
    on_ok (dir_add_entry junk curr name (s1.inode created).ino s1) (λ n s2. some (ok created, s2)))

abbrev pub kind_of : List (List ℕ) → (leaf_type : ℕ) → ℕ
kind_of [] leaf_type = leaf_type
kind_of (next ∷ names) leaf_type = inode_directory

-- the loop of `fs_inode_from_path` over the names of the path
unfoldable pub walk_path :
    (junk : Bytes) (creat : Bool) (leaf_type curr : ℕ) → List (List ℕ) → Fs → Call
walk_path junk creat leaf_type curr [] s = some (ok curr, s)
walk_path junk creat leaf_type curr (name ∷ names) s =
    let found = on_result (dir_lookup junk curr name s) (λ r s1. elim r [
      | ok next ↦ some (ok next, s1)
      | err e ↦
          if creat
          then (if e == enoent
              then create_entry junk curr name (kind_of names leaf_type) s1
              else some (err e, s1))
          else some (err e, s1)
    ]) in
    on_result found (λ r s2. elim r [
      | err e ↦ release_curr curr e s2
      | ok next ↦ elim (inode_put curr s2) [
        | none ↦ none
        | some s3 ↦ walk_path junk creat leaf_type next names s3
      ]
    ])

-- `strtok`: the names between the slashes, 47, that are not empty
abbrev pub end_name : List ℕ → List (List ℕ) → List (List ℕ)
end_name [] names = names
end_name (c ∷ name) names = (c ∷ name) ∷ names

unfoldable pub tokens : (name path : List ℕ) → List (List ℕ)
tokens name [] = end_name name []
tokens name (c ∷ path) =
    let rest = tokens [] path in
    let more = tokens (name ++ c ∷ []) path in if c == 47 then end_name name rest else more

unfoldable pub fs_inode_from_path :
    (junk : Bytes) (root : ℕ) (path : List ℕ) (creat : Bool) (leaf_type : ℕ) → Fs → Call
fs_inode_from_path junk root [] creat leaf_type s = some (err einval, s)
fs_inode_from_path junk root (c ∷ path) creat leaf_type s =
    if not (c == 47) then some (err einval, s) else (elim (inode_get (s.inode root).ino s) [
      | none ↦ none
      | some (curr, s1) ↦ walk_path junk creat leaf_type curr (tokens [] (c ∷ path)) s1
    ])

-- The result of `inode_mark_dirty` is not looked at.
unfoldable pub fs_mknod : (junk : Bytes) (root : ℕ) (path : List ℕ) (dev_id : ℕ) → Fs → Call
fs_mknod junk root path dev_id s =
    on_ok (fs_inode_from_path junk root path true inode_device s) (λ i s1.
      on_result (inode_lock i s1) (λ r s2. elim r [
        | err e ↦ release_curr i e s2
        | ok n ↦
            let d = (s2.inode i).content in
            on_result (inode_mark_dirty i (set_content i (record d { dev_id = dev_id % 2 ^ 8 }) s2))
              (λ r' s3. elim (inode_put i (inode_unlock i s3)) [
                | none ↦ none
                | some s4 ↦ some (ok 0, s4)
              ])
      ]))
