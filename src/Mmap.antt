-- ===== src/Mmap.antt =====
-- The maps of the kernel and of a user task, src/kernel/core/memory/mmap.c. The linker's symbols are
-- parameters. What flushes the TLB is left out, and `none` is the panic of `page_put`.
pub mod Fresh
mod Tests
use rv_mini_os.Prelude.{
  ℕ, ◌+◌, ◌-◌, ◌*◌, ◌/◌, ◌^◌, Bool, not, Option, none, some, List, [], ◌∷◌, if◌then◌else◌,
}
use rv_mini_os.Err.{Result, ok, err, enomem, einval}
use rv_mini_os.Pages.{Pages, page_alloc, page_put}
use rv_mini_os.Vpages.{Call, pte_r, pte_w, pte_x, pte_u, pte_g, vpage_map, vpage_map_range}
use rv_mini_os.Vpages.Copy.{trapframe, vpage_tree_free}

-- `TRAMPOLINE` and `USTACK_TOP`
abbrev pub trampoline : ℕ
trampoline = 2 ^ 38 - 4096

abbrev pub ustack_top : ℕ
ustack_top = 2 ^ 38 - 12288

unfoldable pub mmap_satp : ℕ → ℕ
mmap_satp pt = 8 * 2 ^ 60 + pt

-- the call that follows one that gave no error
abbrev pub on_ok : Call → (Pages → Call) → (Pages → ℕ → Call) → Call
on_ok none f undo = none
on_ok (some (err e, m)) f undo = undo m e
on_ok (some (ok n, m)) f undo = f m

unfoldable pub iommap_kernel : (kroot addr size : ℕ) → Pages → Call
iommap_kernel kroot addr size m = vpage_map_range kroot addr (addr / 4096) size (pte_r + pte_w) m

-- `err_free_root`
abbrev pub free_root : ℕ → Pages → ℕ → Call
free_root kroot m e = elim (page_put kroot m) [ none ↦ none | some m1 ↦ some (err e, m1) ]

unfoldable pub map_ranges : (kroot : ℕ) → List (ℕ × (ℕ × (ℕ × ℕ))) → Pages → Call
map_ranges kroot [] m = some (ok kroot, m)
map_ranges kroot ((va, (page, (size, flags))) ∷ ranges) m =
    on_ok (vpage_map_range kroot va page size flags m) (map_ranges kroot ranges) (free_root kroot)

-- The fields of a task that say where its memory is; 0 is NULL.
pub record Space : Type 0 where
  pub root_ptable : ℕ
  pub tframe_pa : ℕ
  pub tframe_va : ℕ

abbrev pub Mapped : Type 0
Mapped = Option (Result ℕ × (Space × Pages))

-- `err_free_tree`, and `err_free_tframe` before it
abbrev pub free_tree : ℕ → Space → Pages → ℕ → Mapped
free_tree root p m e = elim (vpage_tree_free root m) [
  | none ↦ none
  | some m1 ↦ some (err e, (p, m1))
]

abbrev pub free_tframe : (t root : ℕ) → Space → Pages → ℕ → Mapped
free_tframe t root p m e = elim (page_put t m) [ none ↦ none | some m1 ↦ free_tree root p m1 e ]

abbrev pub after : Call → (Pages → Mapped) → (Pages → ℕ → Mapped) → Mapped
after none f undo = none
after (some (err e, m)) f undo = undo m e
after (some (ok n, m)) f undo = f m

unfoldable pub mmap_uspace : (user : Bool) → Space → Pages → Mapped
mmap_uspace user p m =
    let (root, m1) = page_alloc m in
    let (t, m2) = page_alloc m1 in
    let mapped : Mapped = elim root [
      | none ↦ some (err enomem, (p, m1))
      | some root_page ↦ elim t [
        | none ↦ free_tree root_page p m2 enomem
        | some frame ↦
            after (vpage_map root_page trapframe frame (pte_r + pte_w) m2)
              (λ m3. some (
                ok 0,
                (record { root_ptable = root_page; tframe_pa = frame; tframe_va = trapframe }, m3),
              ))
              (free_tframe frame root_page p)
      ]
    ] in
    if not user then some (err einval, (p, m)) else mapped

-- `err_free_tree` of `mmap_uimage`
abbrev pub drop_space : Space → Pages → ℕ → Mapped
drop_space p m e = free_tree p.root_ptable (record p { root_ptable = 0; tframe_pa = 0 }) m e

abbrev pub put_stack : ℕ → Space → Pages → ℕ → Mapped
put_stack stack p m e = elim (page_put stack m) [ none ↦ none | some m1 ↦ drop_space p m1 e ]

abbrev pub map_stack : Space → Pages → Mapped
map_stack p m =
    let (stack, m1) = page_alloc m in
    elim stack [
      | none ↦ drop_space p m1 enomem
      | some page ↦
          after (vpage_map p.root_ptable ustack_top page (pte_u + pte_r + pte_w) m1)
            (λ m2. some (ok 0, (p, m2))) (put_stack page p)
    ]

module _ (ram_start ram_end trampoline_start trampoline_end : ℕ) where
  -- The maps of `mmap_kernel` in their order: address, physical page, size and
  -- flags. That of the UART is of one page.
  abbrev pub kernel_ranges : List (ℕ × (ℕ × (ℕ × ℕ)))
  kernel_ranges =
      (ram_start, (ram_start / 4096, (ram_end - ram_start, pte_r + pte_w + pte_x)))
      ∷ (trampoline, (trampoline_start / 4096, (trampoline_end - trampoline_start, pte_x + pte_r)))
      ∷ (268435456, (65536, (4096, pte_r + pte_w)))
      ∷ (805306368, (196608, (2 ^ 20, pte_r + pte_w)))
      ∷ (201326592, (49152, (2105344, pte_r + pte_w)))
      ∷ []

  -- The root is given, where the code keeps it in `kroot`, switches to it and gives 0.
  unfoldable pub mmap_kernel : Pages → Call
  mmap_kernel m =
      let (page, m1) = page_alloc m in
      elim page [ none ↦ some (err enomem, m1) | some kroot ↦ map_ranges kroot kernel_ranges m1 ]

module _ (trampoline_start trampoline_end : ℕ) where
  abbrev pub map_image : Mapped → Mapped
  map_image none = none
  map_image (some (err e, (p, m))) = some (err e, (p, m))
  map_image (some (ok n, (p, m))) =
      after
        (vpage_map_range p.root_ptable trampoline (trampoline_start / 4096)
          (trampoline_end - trampoline_start) (pte_x + pte_r + pte_g) m)
        (map_stack p) (drop_space p)

  unfoldable pub mmap_uimage : (user : Bool) → Space → Pages → Mapped
  mmap_uimage user p m = map_image (mmap_uspace user p m)
