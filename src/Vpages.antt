-- ===== src/Vpages.antt =====
-- Sv39 page tables, src/kernel/core/memory/vpages.c. Tables are pages of 512 words in the memory
-- of Pages. A physical address that is mapped is given by its page number, which is all that the
-- code uses of it. A virtual address is a number. `none` is the panic of `page_put`. What flushes
-- the TLB is left out.
pub mod Copy
pub mod SamePage
pub mod Tree
pub mod Grow
pub mod GrowTree
pub mod NewTable
pub mod Alloc
pub mod Map
pub mod Unmap
pub mod Cow
pub mod OffTree
pub mod Dangling
pub mod Tests
pub mod Range
pub mod Reach
pub mod Write
use Prim.Native.Nat.{bit_and, bit_or}
use rv_mini_os.Prelude.{
  ℕ, zero, suc, ◌+◌, ◌-◌, ◌*◌, ◌/◌, ◌%◌, ◌^◌, Bool, true, false, ◌&&◌, not, Option, none, some,
  List, [], ◌∷◌, ◌++◌, ◌==◌, ltb, if◌then◌else◌, update,
}
use rv_mini_os.Err.{Result, ok, err, enomem, einval, efault}
use rv_mini_os.Pages.{Pages, page_alloc, page_put, page_get, page_get_ref_count}

abbrev pub levels : ℕ
levels = 3

-- `PTE_V`, `PTE_R`, `PTE_W`, `PTE_X`, `PTE_G` and the others of src/include/kernel/vpages.h
abbrev pub pte_v : ℕ
pte_v = 1

abbrev pub pte_r : ℕ
pte_r = 2

abbrev pub pte_w : ℕ
pte_w = 4

abbrev pub pte_x : ℕ
pte_x = 8

abbrev pub pte_u : ℕ
pte_u = 16

abbrev pub pte_g : ℕ
pte_g = 32

abbrev pub pte_a : ℕ
pte_a = 64

abbrev pub pte_d : ℕ
pte_d = 128

abbrev pub pte_cow : ℕ
pte_cow = 256

-- Flags are single bits.
abbrev pub has_flag : (pte flag : ℕ) → Bool
has_flag pte flag = pte / flag % 2 == 1

abbrev pub set_flag : (pte flag : ℕ) → ℕ
set_flag pte flag = if has_flag pte flag then pte else pte + flag

abbrev pub clear_flag : (pte flag : ℕ) → ℕ
clear_flag pte flag = if has_flag pte flag then pte - flag else pte

-- the word `i` of a page
abbrev pub set_word : (page i v : ℕ) → Pages → Pages
set_word page i v m = record m { content = update m.content page (update (m.content page) i v) }

unfoldable pub get_va_vpn : (va lvl : ℕ) → ℕ
get_va_vpn va lvl = va / 2 ^ (12 + 9 * lvl) % 512

-- the page that an entry names
unfoldable pub get_next_lvl_pte : ℕ → ℕ
get_next_lvl_pte pte = pte / 1024

unfoldable pub is_a_next_lvl_ptr : ℕ → Bool
is_a_next_lvl_ptr pte =
    not (has_flag pte pte_x) && not (has_flag pte pte_w) && not (has_flag pte pte_r)

-- The loop of `vpage_map` over the levels above 0: the table of level 0, and the tables that were
-- allocated, the upper ones first.
unfoldable pub walk_alloc : (lvl table va : ℕ) → List ℕ → Pages → Result ℕ × (List ℕ × Pages)
walk_alloc zero table va allocated m = (ok table, (allocated, m))
walk_alloc (suc lvl) table va allocated m =
    let i = get_va_vpn va (suc lvl) in
    let pte = m.content table i in
    let down = walk_alloc lvl (get_next_lvl_pte pte) va allocated m in
    let (page, m1) = page_alloc m in
    let grow : Result ℕ × (List ℕ × Pages) = elim page [
      | none ↦ (err enomem, (allocated, m1))
      | some next ↦
          walk_alloc lvl (get_next_lvl_pte (next * 1024 + pte_v)) va (allocated ++ next ∷ [])
            (set_word table i (next * 1024 + pte_v) m1)
    ] in
    if has_flag pte pte_v then down else grow

-- `err_release_prv`
unfoldable pub release_tables : List ℕ → Pages → Option Pages
release_tables [] m = some m
release_tables (page ∷ pages) m = elim (page_put page m) [
  | none ↦ none
  | some m1 ↦ release_tables pages m1
]

abbrev pub Call : Type 0
Call = Option (Result ℕ × Pages)

-- The flags of a new leaf.
unfoldable pub leaf_flags : ℕ → ℕ
leaf_flags flags =
    let pte_flags = set_flag (set_flag flags pte_v) pte_a in
    if has_flag flags pte_w then set_flag pte_flags pte_d else pte_flags

-- `(page << 10) | pte_flags`: its bits from 10 on, and those below
unfoldable pub new_leaf : (page flags : ℕ) → ℕ
new_leaf page flags = bit_or page (leaf_flags flags / 1024) * 1024 + leaf_flags flags % 1024

abbrev pub finish_map : (va page flags : ℕ) → Result ℕ × (List ℕ × Pages) → Call
finish_map va page flags (ok table, (allocated, m)) =
    some (ok 0, set_word table (get_va_vpn va 0) (new_leaf page flags) m)
finish_map va page flags (err e, (allocated, m)) = elim (release_tables allocated m) [
  | none ↦ none
  | some m1 ↦ some (err e, m1)
]

unfoldable pub vpage_map : (root va page flags : ℕ) → Pages → Call
vpage_map root va page flags m = finish_map va page flags (walk_alloc (levels - 1) root va [] m)

-- the loop of `vpage_map_range` over the pages that are left
unfoldable pub map_pages : (rounds root va page flags : ℕ) → Pages → Call
map_pages zero root va page flags m = some (ok 0, m)
map_pages (suc rounds) root va page flags m = elim (vpage_map root va page flags m) [
  | none ↦ none
  | some (err e, m1) ↦ some (err e, m1)
  | some (ok n, m1) ↦ map_pages rounds root (va + 4096) (page + 1) flags m1
]

unfoldable pub vpage_map_range : (root va page size flags : ℕ) → Pages → Call
vpage_map_range root va page size flags m = map_pages ((size + 4095) / 4096) root va page flags m

-- The table and the index of the leaf entry, in the `lvl` levels that are left.
unfoldable pub walk_from : (lvl table va : ℕ) → Pages → Option (ℕ × ℕ)
walk_from zero table va m = none
walk_from (suc lvl) table va m =
    let i = get_va_vpn va lvl in
    let pte = m.content table i in
    let down = walk_from lvl (get_next_lvl_pte pte) va m in
    if not (has_flag pte pte_v)
    then none
    else if not (is_a_next_lvl_ptr pte)
    then some (table, i)
    else down

unfoldable pub walk_leaf : (root va : ℕ) → Pages → Option (ℕ × ℕ)
walk_leaf root va m = walk_from levels root va m

unfoldable pub vpage_unmmap : (root va : ℕ) → Pages → Call
vpage_unmmap root va m = elim (walk_leaf root va m) [
  | none ↦ some (err einval, m)
  | some (table, i) ↦ elim (page_put (get_next_lvl_pte (m.content table i)) m) [
    | none ↦ none
    | some m1 ↦ some (ok 0, set_word table i 0 m1)
  ]
]

unfoldable pub get_flags : ℕ → ℕ
get_flags pte = pte % 1024

-- A page of words is copied.
abbrev pub page_copy : (dst src : ℕ) → Pages → Pages
page_copy dst src m = record m { content = update m.content dst (m.content src) }

-- The part of `vpage_handle_cow` behind its test.
unfoldable pub copy_on_write : (table i : ℕ) → Pages → Call
copy_on_write table i m =
    let pte = m.content table i in
    let page = get_next_lvl_pte pte in
    if page_get_ref_count page m == 1
    then some (ok 0, set_word table i (set_flag (clear_flag pte pte_cow) pte_w) m)
    else (let (new, m1) = page_alloc m in
        elim new [
          | none ↦ some (err enomem, m1)
          | some new_page ↦
              let m2 = page_copy new_page page m1 in
              let flags = set_flag (clear_flag (get_flags (m2.content table i)) pte_cow) pte_w in
              elim (page_put page (set_word table i (new_page * 1024 + flags) m2)) [
                | none ↦ none
                | some m3 ↦ some (ok 0, m3)
              ]
        ])

unfoldable pub vpage_handle_cow : (root va : ℕ) → Pages → Call
vpage_handle_cow root va m = elim (walk_leaf root va m) [
  | none ↦ some (err efault, m)
  | some (table, i) ↦
      if has_flag (m.content table i) pte_cow then copy_on_write table i m else some (err efault, m)
]
