-- ===== src/Vpages/Copy.antt =====
-- Copies between the kernel and a user address space, and whole address spaces: the rest of
-- src/kernel/core/memory/vpages.c. A physical address is a number; what is copied is a list of
-- bytes.
use Prim.Native.Nat.{bit_and}
use rv_mini_os.Prelude.{
  take, ℕ, zero, suc, ◌+◌, ◌-◌, ◌*◌, ◌/◌, ◌%◌, ◌^◌, ◌&&◌, ◌||◌, not, Option, none, some, List, [],
  ◌∷◌, ◌==◌, if◌then◌else◌, min,
}
use rv_mini_os.Err.{Result, ok, err, einval, efault, enametoolong}
use rv_mini_os.Pages.{Pages, page_put, page_get}
use rv_mini_os.Vpages.{
  Call, levels, pte_v, pte_w, pte_g, pte_cow, has_flag, set_flag, clear_flag, set_word, walk_leaf,
  vpage_handle_cow, vpage_map, get_next_lvl_pte, get_flags, is_a_next_lvl_ptr,
}

-- the part of `get_pa_from_va` behind the copy on write
abbrev pub check_flags : (table i va needed : ℕ) → Pages → Option ℕ × Pages
check_flags table i va needed m = (
  (if bit_and (m.content table i) needed == needed
      then some (get_next_lvl_pte (m.content table i) * 4096 + va % 4096)
      else none),
  m,
)

abbrev pub after_cow : (table i va needed : ℕ) → Call → Option (Option ℕ × Pages)
after_cow table i va needed none = none
after_cow table i va needed (some (err e, m)) = some (none, m)
after_cow table i va needed (some (ok n, m)) = some (check_flags table i va needed m)

unfoldable pub get_pa_from_va : (root va needed : ℕ) → Pages → Option (Option ℕ × Pages)
get_pa_from_va root va needed m = elim (walk_leaf root va m) [
  | none ↦ some (none, m)
  | some (table, i) ↦
      if has_flag needed pte_w && has_flag (m.content table i) pte_cow
      then after_cow table i va needed (vpage_handle_cow root va m)
      else some (check_flags table i va needed m)
]

-- the byte at a physical address
abbrev pub load_byte : ℕ → Pages → ℕ
load_byte pa m = m.content (pa / 4096) (pa % 4096 / 8) / 256 ^ (pa % 8) % 256

abbrev pub store_byte : (pa v : ℕ) → Pages → Pages
store_byte pa v m =
    let word = m.content (pa / 4096) (pa % 4096 / 8) in
    set_word (pa / 4096) (pa % 4096 / 8)
      (word - load_byte pa m * 256 ^ (pa % 8) + v % 256 * 256 ^ (pa % 8)) m

unfoldable pub load_bytes : (count pa : ℕ) → Pages → List ℕ
load_bytes zero pa m = []
load_bytes (suc count) pa m = load_byte pa m ∷ load_bytes count (pa + 1) m

unfoldable pub store_bytes : ℕ → List ℕ → Pages → Pages
store_bytes pa [] m = m
store_bytes pa (b ∷ bs) m = store_bytes (pa + 1) bs (store_byte pa b m)

-- `strnlen` of the bytes that follow, which never looks behind `max` bytes
unfoldable pub strnlen : List ℕ → (max : ℕ) → ℕ
strnlen bs zero = 0
strnlen [] (suc max) = 0
strnlen (b ∷ bs) (suc max) = let rest = suc (strnlen bs max) in if b == 0 then 0 else rest

-- A user address that may not be used gives EFAULT.
abbrev pub with_pa :
    {A : Type 0}
    → Option (Option ℕ × Pages)
    → (ℕ → Pages → Result A × Pages)
    → Option (Result A × Pages)
with_pa none f = none
with_pa (some (none, m)) f = some (err efault, m)
with_pa (some (some pa, m)) f = some (f pa m)

-- `PTE_V | PTE_U | PTE_R` and `PTE_V | PTE_U | PTE_W`
abbrev pub user_read : ℕ
user_read = 19

abbrev pub user_write : ℕ
user_write = 21

unfoldable pub vpage_copyin : (root va count : ℕ) → Pages → Option (Result (List ℕ) × Pages)
vpage_copyin root va count m =
    with_pa (get_pa_from_va root va user_read m) (λ pa m1. (ok (load_bytes count pa m1), m1))

unfoldable pub vpage_copyinstr : (root va max : ℕ) → Pages → Option (Result (List ℕ) × Pages)
vpage_copyinstr root va max m =
    let n = min (4096 - va % 4096) max in
    with_pa (get_pa_from_va root va user_read m) (λ pa m1.
      let bs = load_bytes n pa m1 in
      let size = strnlen bs n in
      (if size == n then err enametoolong else ok (take (size + 1) bs), m1))

unfoldable pub vpage_copyout : (root va : ℕ) → List ℕ → Pages → Call
vpage_copyout root va src m =
    with_pa (get_pa_from_va root va user_write m) (λ pa m1. (ok 0, store_bytes pa src m1))

unfoldable pub vpage_copyoutstr : (root va : ℕ) → List ℕ → (max : ℕ) → Pages → Call
vpage_copyoutstr root va src max m = with_pa (get_pa_from_va root va user_write m) (λ pa m1.
    let size = strnlen src max in
    if size == max
    then (err enametoolong, m1)
    else (ok (size + 1), store_bytes pa (take (size + 1) src) m1))

-- The walk of the next level, where there is one.
abbrev pub Child : Type 0
Child = Option (ℕ → Pages → Option Pages)

-- what `walk_free` does with a valid entry
unfoldable pub free_entry : (table i : ℕ) → Child → Pages → Option Pages
free_entry table i child m =
    let pte = m.content table i in
    let leaf : Option Pages =
      if not (has_flag pte pte_g) && not (is_a_next_lvl_ptr pte)
      then page_put (get_next_lvl_pte pte) m
      else some m in
    let reset : Option Pages = elim leaf [ none ↦ none | some m1 ↦ some (set_word table i 0 m1) ] in
    elim child [
      | none ↦ reset
      | some walk ↦ if is_a_next_lvl_ptr pte then walk (get_next_lvl_pte pte) m else reset
    ]

-- the loop of `walk_free`, with the rounds that are left
unfoldable pub free_entries : (rounds i table : ℕ) → Child → Pages → Option Pages
free_entries zero i table child m = some m
free_entries (suc rounds) i table child m =
    let freed : Option Pages =
      if has_flag (m.content table i) pte_v then free_entry table i child m else some m in
    elim freed [ none ↦ none | some m1 ↦ free_entries rounds (i + 1) table child m1 ]

abbrev pub put_table : ℕ → Option Pages → Option Pages
put_table table none = none
put_table table (some m) = page_put table m

unfoldable pub walk_free : (lvl table : ℕ) → Pages → Option Pages
walk_free zero table m = put_table table (free_entries 512 0 table none m)
walk_free (suc lvl) table m =
    put_table table (free_entries 512 0 table (some (λ t m1. walk_free lvl t m1)) m)

unfoldable pub vpage_tree_free : ℕ → Pages → Option Pages
vpage_tree_free root m = if root == 0 then some m else walk_free (levels - 1) root m

-- `TRAPFRAME`
abbrev pub trapframe : ℕ
trapframe = 2 ^ 38 - 8192

-- A leaf of `copy_level`. The caller shares the page, which both copy before they write.
unfoldable pub copy_leaf : (dst src i child_va : ℕ) → Pages → Call
copy_leaf dst src i child_va m =
    let pte = m.content src i in
    let page = get_next_lvl_pte pte in
    let m1 =
      if has_flag pte pte_w
      then set_word src i (set_flag (clear_flag pte pte_w) pte_cow) m
      else m in
    let m2 = page_get page m1 in
    elim (vpage_map dst child_va page (get_flags (m2.content src i)) m2) [
      | none ↦ none
      | some (ok n, m3) ↦ some (ok 0, m3)
      | some (err e, m3) ↦ elim (page_put page m3) [ none ↦ none | some m4 ↦ some (err e, m4) ]
    ]

-- The walk of the next level, by its table and its address. At level 0 the code has none.
abbrev pub CopyChild : Type 0
CopyChild = (table child_va : ℕ) → Pages → Call

-- the loop of `copy_level` at a level `lvl`, with the rounds that are left
unfoldable pub copy_entries : (rounds i dst src lvl va : ℕ) → CopyChild → Pages → Call
copy_entries zero i dst src lvl va child m = some (ok 0, m)
copy_entries (suc rounds) i dst src lvl va child m =
    let pte = m.content src i in
    let child_va = va + i * 2 ^ (12 + 9 * lvl) in
    let copied : Call =
      if not (has_flag pte pte_v)
      then some (ok 0, m)
      else if is_a_next_lvl_ptr pte
      then child (get_next_lvl_pte pte) child_va m
      else if child_va == trapframe
      then some (ok 0, m)
      else copy_leaf dst src i child_va m in
    elim copied [
      | none ↦ none
      | some (err e, m1) ↦ some (err e, m1)
      | some (ok n, m1) ↦ copy_entries rounds (i + 1) dst src lvl va child m1
    ]

unfoldable pub copy_level : (lvl dst src va : ℕ) → Pages → Call
copy_level zero dst src va m = copy_entries 512 0 dst src 0 va (λ t v m1. none) m
copy_level (suc lvl) dst src va m =
    copy_entries 512 0 dst src (suc lvl) va (λ t v m1. copy_level lvl dst t v m1) m

unfoldable pub vpage_tree_copy : (dst src : ℕ) → Pages → Call
vpage_tree_copy dst src m =
    if (dst == 0) || (src == 0) then some (err einval, m) else copy_level (levels - 1) dst src 0 m
