-- ===== src/Elf.antt =====
-- The loader, src/kernel/core/memory/elf.c. Headers are records, read from the bytes of the file.
-- The symbol `_ram_start` and the devices' callbacks are parameters. `junk` is what a header holds
-- before it is read. `none` is a wait or a panic.
use rv_mini_os.Prelude.{
  ℕ, zero, suc, ◌+◌, ◌-◌, ◌*◌, ◌/◌, ◌%◌, ◌^◌, Bool, true, false, not, ◌&&◌, ◌||◌, Option, none,
  some, ◌==◌, ltb, if◌then◌else◌, min,
}
use rv_mini_os.Err.{Result, ok, err, enomem, enoexec}
use rv_mini_os.Pages.{Pages, page_alloc, page_put}
use rv_mini_os.Vpages.{has_flag, pte_r, pte_w, pte_x, pte_u, vpage_map}
use rv_mini_os.Vpages.Copy.{load_bytes, store_bytes}
use rv_mini_os.Fs.Bcache.{Bytes}
use rv_mini_os.Fs.Layout.{load32}
use rv_mini_os.Fs.ReadWrite.{Buffer, kernel_buffer}
use rv_mini_os.Files.{Files, file_read, file_seek, forward, backward, Offset}

pub record ElfHdr : Type 0 where
  pub ident : ℕ → ℕ
  pub kind : ℕ
  pub machine : ℕ
  pub entry : ℕ
  pub phdroff : ℕ
  pub phdr_size : ℕ
  pub phdr_num : ℕ

pub record ElfPhdr : Type 0 where
  pub kind : ℕ
  pub flags : ℕ
  pub offset : ℕ
  pub va : ℕ
  pub filesz : ℕ
  pub memsz : ℕ

-- 16 and 64 bits at a position, little-endian
abbrev pub load16 : ℕ → Bytes → ℕ
load16 at buf = buf at + 256 * buf (at + 1)

abbrev pub load64 : ℕ → Bytes → ℕ
load64 at buf = load32 at buf + 2 ^ 32 * load32 (at + 4) buf

unfoldable pub load_hdr : Bytes → ElfHdr
load_hdr buf = record {
  ident = buf;
  kind = load16 16 buf;
  machine = load16 18 buf;
  entry = load64 24 buf;
  phdroff = load64 32 buf;
  phdr_size = load16 54 buf;
  phdr_num = load16 56 buf;
}

-- the program header at a position; it has 56 bytes
unfoldable pub load_phdr_at : ℕ → Bytes → ElfPhdr
load_phdr_at at buf = record {
  kind = load32 at buf;
  flags = load32 (at + 4) buf;
  offset = load64 (at + 8) buf;
  va = load64 (at + 16) buf;
  filesz = load64 (at + 32) buf;
  memsz = load64 (at + 40) buf;
}

unfoldable pub elf_verify_file_format : ElfHdr → Result ℕ
elf_verify_file_format hdr =
    if not (hdr.ident 0 == 127 && hdr.ident 1 == 69 && hdr.ident 2 == 76 && hdr.ident 3 == 70)
    then err enoexec
    else if not (hdr.ident 4 == 2)
    then err enoexec
    else if not (hdr.ident 5 == 1)
    then err enoexec
    else if not (hdr.kind == 2)
    then err enoexec
    else if not (hdr.machine == 243)
    then err enoexec
    else ok 0

unfoldable pub is_load_phdr : ElfPhdr → Bool
is_load_phdr phdr = phdr.kind == 1

-- The end of the segment is a sum of 64 bits.
unfoldable pub is_valid_phdr : (ram_start : ℕ) → ElfPhdr → Bool
is_valid_phdr ram_start phdr =
    if ltb phdr.memsz phdr.filesz
    then false
    else if not (phdr.va % 4096 == 0)
    then false
    else if ltb ram_start ((phdr.va + phdr.memsz) % 2 ^ 64)
    then false
    else true

unfoldable pub phdr_flag_to_pte_flag : ℕ → ℕ
phdr_flag_to_pte_flag flags =
    (if has_flag flags 1 then pte_x else 0)
    + (if has_flag flags 2 then pte_w else 0)
    + (if has_flag flags 4 then pte_r else 0)

-- a page of the kernel's memory as a buffer
abbrev pub page_buffer : ℕ → Buffer Pages
page_buffer page = record {
  store = λ pos bs m. some (ok 0, store_bytes (page * 4096 + pos) bs m);
  load = λ pos count m. some (ok (load_bytes count (page * 4096 + pos) m), m);
}

-- A 64-bit number as the `int64_t` that `file_seek` takes.
abbrev pub to_offset : ℕ → Offset
to_offset n = if ltb n (2 ^ 63) then forward n else backward (2 ^ 64 - n)

-- a seek from the start, and what follows it
abbrev pub seek_set : {A : Type 0} (f offset : ℕ) → Files → (ℕ → Files → A) → (Files → A) → A → A
seek_set f offset w fails next waits = elim (file_seek f (to_offset offset) 1 w) [
  | none ↦ waits
  | some (err e, w1) ↦ fails e w1
  | some (ok n, w1) ↦ next w1
]

abbrev pub Device : Type 0 → Type 0
Device M = (callback f count : ℕ) → Files → M → Option (Result ℕ × (Files × M))

abbrev pub Header : Type 0
Header = Option (Result ℕ × (Files × Bytes))

-- what a read that gave no error leaves
abbrev pub on_header : (n : ℕ) → Header → Header
on_header n none = none
on_header n (some (err e, r)) = some (err e, r)
on_header n (some (ok k, r)) = some (ok n, r)

-- `struct elf_hdr` has 64 bytes.
unfoldable pub elf_load_hdr : Device Bytes → (f : ℕ) → Files → (junk : Bytes) → Header
elf_load_hdr device f w junk =
    seek_set f 0 w (λ e w1. some (err e, (w1, junk)))
      (λ w1. on_header 0 (file_read kernel_buffer device f 64 w1 junk)) none

unfoldable pub load_phdr : Device Bytes → (f : ℕ) → ElfHdr → Files → (junk : Bytes) → Header
load_phdr device f hdr w junk =
    if hdr.phdr_num == 0 || ltb 16 hdr.phdr_num
    then some (err enoexec, (w, junk))
    else if not (hdr.phdr_size == 56)
    then some (err enoexec, (w, junk))
    else seek_set f hdr.phdroff w (λ e w1. some (err e, (w1, junk)))
        (λ w1.
          on_header hdr.phdr_num (file_read kernel_buffer device f (hdr.phdr_num * 56) w1 junk))
        none

abbrev pub Mapped : Type 0
Mapped = Option (Result ℕ × (Files × Pages))

-- what follows the read of a page: its map, and the rest of the segment
abbrev pub map_read : (root page va flags : ℕ) → Mapped → (Files → Pages → Mapped) → Mapped
map_read root page va flags none next = none
map_read root page va flags (some (err e, r)) next = some (err e, r)
map_read root page va flags (some (ok n, (w, m))) next =
    elim (vpage_map root va page (pte_u + flags) m) [
      | none ↦ none
      | some (ok k, m1) ↦ next w m1
      | some (err e, m1) ↦ elim (page_put page m1) [ none ↦ none | some m2 ↦ some (err e, (w, m2)) ]
    ]

-- the loop of `map_phdr` over the pages, with the rounds that are left
unfoldable pub map_loop : Device Pages → (rounds off root f : ℕ) → ElfPhdr → Files → Pages → Mapped
map_loop device zero off root f phdr w m = some (ok 0, (w, m))
map_loop device (suc rounds) off root f phdr w m =
    let (new, m1) = page_alloc m in
    elim new [
      | none ↦ some (err enomem, (w, m1))
      | some page ↦
          let n = min (phdr.filesz - off) 4096 in
          let filled : Mapped =
            if ltb off phdr.filesz
            then file_read (page_buffer page) device f n w m1
            else some (ok 0, (w, m1)) in
          map_read root page ((phdr.va + off) % 2 ^ 64) (phdr_flag_to_pte_flag phdr.flags) filled
            (λ w1 m2. map_loop device rounds (off + 4096) root f phdr w1 m2)
    ]

unfoldable pub map_phdr : Device Pages → (root f : ℕ) → ElfPhdr → Files → Pages → Mapped
map_phdr device root f phdr w m =
    seek_set f phdr.offset w (λ e w1. some (err e, (w1, m)))
      (λ w1. map_loop device ((phdr.memsz + 4095) / 4096) 0 root f phdr w1 m) none

-- the loop of `elf_map` over the program headers that are left
unfoldable pub map_phdrs :
    Device Pages → (ram_start root f : ℕ) (tab : Bytes) → (rounds i : ℕ) → Files → Pages → Mapped
map_phdrs device ram_start root f tab zero i w m = some (ok 0, (w, m))
map_phdrs device ram_start root f tab (suc rounds) i w m =
    let phdr = load_phdr_at (i * 56) tab in
    let further : Files → Pages → Mapped = map_phdrs device ram_start root f tab rounds (i + 1) in
    let mapped : Mapped = elim (map_phdr device root f phdr w m) [
      | none ↦ none
      | some (err e, r) ↦ some (err e, r)
      | some (ok n, (w1, m1)) ↦ further w1 m1
    ] in
    let skipped = further w m in
    if not (is_load_phdr phdr)
    then skipped
    else if not (is_valid_phdr ram_start phdr)
    then some (err enoexec, (w, m))
    else mapped

abbrev pub map_table : Device Pages → (ram_start root f : ℕ) → Header → Pages → Mapped
map_table device ram_start root f none m = none
map_table device ram_start root f (some (err e, (w, tab))) m = some (err e, (w, m))
map_table device ram_start root f (some (ok n, (w, tab))) m =
    map_phdrs device ram_start root f tab n 0 w m

unfoldable pub elf_map :
    Device Bytes
    → Device Pages
    → (junk : Bytes) (ram_start root f : ℕ) → ElfHdr
    → Files
    → Pages
    → Mapped
elf_map device_b device_p junk ram_start root f hdr w m =
    map_table device_p ram_start root f (load_phdr device_b f hdr w junk) m
