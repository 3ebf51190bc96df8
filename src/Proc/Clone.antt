-- ===== src/Proc/Clone.antt =====
-- Threads and forks: `task_clone` and `task_fork` of src/kernel/core/task/task.c.
use rv_mini_os.Prelude.{
  ℕ, ◌+◌, ◌-◌, ◌*◌, ◌^◌, Bool, true, false, ◌||◌, Option, none, some, ◌==◌, if◌then◌else◌, update,
}
use rv_mini_os.Err.{Result, ok, err, enomem, einval}
use rv_mini_os.Pages.{Pages, page_alloc, page_get, page_put}
use rv_mini_os.Vpages.{Call, has_flag, pte_r, pte_w, vpage_map}
use rv_mini_os.Vpages.Copy.{trapframe, vpage_tree_copy, vpage_tree_free}
use rv_mini_os.Mmap.{Space}
use rv_mini_os.Task.{set_task}
use rv_mini_os.Proc.{World, set_kernel, set_pages, alloc_squeletton, activate_task, copy_fds}

-- `CLONE_VM`, `CLONE_FILES` and `THREAD_TRAPFRAME`
abbrev pub clone_vm : ℕ
clone_vm = 1

abbrev pub clone_files : ℕ
clone_files = 2

abbrev pub thread_trapframe : ℕ → ℕ
thread_trapframe pid = 2 ^ 38 - (4 + pid) * 4096

-- a result, and whether a switch ended the call
abbrev pub Cloned : Type 0
Cloned = Option (Result ℕ × (World × Bool))

abbrev pub failed : (e : ℕ) → World → Option Pages → Cloned
failed e w none = none
failed e w (some m) = some (err e, (set_pages w m, false))

-- `err_free_map`, by what it does to the address space, and then `err_free_tframe`
abbrev pub free_map : (frame e : ℕ) → World → Option Pages → Cloned
free_map frame e w none = none
free_map frame e w (some m) = failed e w (page_put frame m)

abbrev pub undo_map : (vm : Bool) (root frame e : ℕ) → World → Pages → Cloned
undo_map vm root frame e w m =
    free_map frame e w (if vm then page_put root m else vpage_tree_free root m)

abbrev pub set_space : ℕ → Space → World → World
set_space t s w = record w { space = update w.space t s }

abbrev pub set_tgid : (t tgid : ℕ) → World → World
set_tgid t tgid w = set_kernel w (set_task t (record (w.kernel.task t) { tgid = tgid }) w.kernel)

abbrev pub started : (child : ℕ) → World × Bool → Cloned
started child (w, switched) = some (ok child, (w, switched))

-- the part of `task_clone` behind the map of the trap frame
abbrev pub finish_clone : (vm files : Bool) (parent child : ℕ) → World → Call → Cloned
finish_clone vm files parent child w none = none
finish_clone vm files parent child w (some (err e, m)) =
    let s = w.space child in undo_map vm s.root_ptable s.tframe_pa e w m
finish_clone vm files parent child w (some (ok n, m)) =
    elim (copy_fds child parent files (set_pages w m)) [
      | none ↦ none
      | some w1 ↦ started child (activate_task child w1)
    ]

unfoldable pub map_frame : (vm files : Bool) (parent child : ℕ) → World → Cloned
map_frame vm files parent child w =
    let s = w.space child in
    finish_clone vm files parent child w
      (vpage_map s.root_ptable s.tframe_va s.tframe_pa (pte_r + pte_w) w.pages)

-- A thread runs in the memory of its parent, with a trap frame of its own.
unfoldable pub clone_thread : (files : Bool) (parent child frame entry stack : ℕ) → World → Cloned
clone_thread files parent child frame entry stack w =
    let root = (w.space parent).root_ptable in
    let m = page_get root w.pages in
    let w1 = set_tgid child (w.kernel.task parent).tgid (set_pages w m) in
    let s : Space = record {
      root_ptable = root;
      tframe_pa = frame;
      tframe_va = thread_trapframe (w.kernel.task child).pid;
    } in
    if (stack == 0) || (entry == 0)
    then undo_map true root frame einval w1 m
    else map_frame true files parent child (set_space child s w1)

-- A fork gets a copy of the memory, page by page when it is written.
abbrev pub copied : (files : Bool) (parent child root frame : ℕ) → World → Call → Cloned
copied files parent child root frame w none = none
copied files parent child root frame w (some (err e, m)) = undo_map false root frame e w m
copied files parent child root frame w (some (ok n, m)) = map_frame false files parent child (
    set_space child (record { root_ptable = root; tframe_pa = frame; tframe_va = trapframe })
      (set_pages w m))

unfoldable pub clone_memory : (files : Bool) (parent child frame : ℕ) → World → Cloned
clone_memory files parent child frame w =
    let (root, m) = page_alloc w.pages in
    elim root [
      | none ↦ failed enomem w (page_put frame m)
      | some page ↦
          let w1 = set_tgid child (w.kernel.task child).pid (set_pages w m) in
          copied files parent child page frame w1
            (vpage_tree_copy page (w.space parent).root_ptable m)
    ]

abbrev pub with_frame : (flags parent child entry stack : ℕ) → World → Option ℕ × Pages → Cloned
with_frame flags parent child entry stack w (none, m) = some (err enomem, (set_pages w m, false))
with_frame flags parent child entry stack w (some frame, m) =
    let files = has_flag flags clone_files in
    let thread = clone_thread files parent child frame entry stack (set_pages w m) in
    let fork = clone_memory files parent child frame (set_pages w m) in
    if has_flag flags clone_vm then thread else fork

abbrev pub clone_child : (flags parent entry stack : ℕ) → Result ℕ × World → Cloned
clone_child flags parent entry stack (err e, w) = some (err e, (w, false))
clone_child flags parent entry stack (ok child, w) =
    with_frame flags parent child entry stack w (page_alloc w.pages)

unfoldable pub task_clone : (new : Option ℕ) (parent entry stack flags : ℕ) → World → Cloned
task_clone new parent entry stack flags w =
    let made =
      clone_child flags parent entry stack
        (alloc_squeletton new (w.kernel.task parent).priority (w.user parent) parent w) in
    if w.user parent then made else none

unfoldable pub task_fork : (new : Option ℕ) (parent : ℕ) → World → Cloned
task_fork new parent w = task_clone new parent 0 0 0 w
