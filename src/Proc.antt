-- ===== src/Proc.antt =====
-- The life of a task: src/kernel/core/task/task.c with the exit of a group of
-- src/kernel/core/sched/scheduler.c. Beside what the scheduler knows of a task, it has an address
-- space, a table of open files, and a place in the task table. Names, kernel stacks and saved
-- registers, those in trap frames included, are left out. A file's address is its slot plus 1, so
-- that 0 is NULL. `none` is a panic. The address that `calloc` gives is an argument.
pub mod Exec
pub mod Clone
pub mod Wait
pub mod Tests
pub mod Start
pub mod Group
use rv_mini_os.Prelude.{
  ℕ, zero, suc, ◌+◌, ◌-◌, ◌*◌, ◌/◌, ◌%◌, ◌^◌, Bool, true, false, not, ◌&&◌, Option, none, some,
  List, [], ◌∷◌, ◌++◌, ◌==◌, leb, if◌then◌else◌, update,
}
use rv_mini_os.Err.{Result, ok, err, eagain, enomem}
use rv_mini_os.Pages.{Pages, page_put, page_get_ref_count}
use rv_mini_os.Vpages.{Call, vpage_unmmap}
use rv_mini_os.Vpages.Copy.{vpage_tree_free}
use rv_mini_os.Mmap.{Space}
use rv_mini_os.Files.{Files, file_put, file_get, file_clone}
use rv_mini_os.Fds.{nofile}
use rv_mini_os.Task.{
  Kernel, Task, TaskState, WaitList, set_task, set_state, without, wq_init,
  remove_from_sched_queues,
}
use rv_mini_os.Sched
use rv_mini_os.Sched.{Run, scheduler_admit}

pub record World : Type 0 where
  pub kernel : Kernel
  pub pages : Pages
  pub files : Files
  pub user : ℕ → Bool
  pub space : ℕ → Space
  pub fdtable : ℕ → ℕ → ℕ
  pub head : List ℕ
  pub next_pid : ℕ
  pub active_task : ℕ

-- `MAX_TASK`
abbrev pub max_task : ℕ
max_task = 32

abbrev pub set_kernel : World → Kernel → World
set_kernel w k = record w { kernel = k }

abbrev pub set_pages : World → Pages → World
set_pages w m = record w { pages = m }

abbrev pub no_space : Space
no_space = record { root_ptable = 0; tframe_pa = 0; tframe_va = 0 }

-- the queues that a task owns
unfoldable pub init_task_queues : ℕ → Kernel → Kernel
init_task_queues t k = wq_init (WaitList.zombie_wq t) (wq_init (WaitList.zombies t) k)

-- a task as `alloc_squeletton` leaves it
abbrev pub fresh_task : (pid priority parent : ℕ) → Task
fresh_task pid priority parent = record {
  pid = pid;
  tgid = pid;
  state = TaskState.new;
  priority = priority;
  wait_on = none;
  wake_up_time = 0;
  parent = parent;
  exit_code = 0;
}

unfoldable pub alloc_squeletton :
    (new : Option ℕ) (prior : ℕ) (user : Bool) (parent : ℕ) → World → Result ℕ × World
alloc_squeletton new prior user parent w =
    if leb max_task w.active_task then (err eagain, w) else (elim new [
      | none ↦ (err enomem, w)
      | some t ↦ (
        ok t,
        record w {
          kernel = set_task t (fresh_task w.next_pid prior parent) (init_task_queues t w.kernel);
          user = update w.user t user;
          space = update w.space t no_space;
          fdtable = update w.fdtable t (λ fd. 0);
          next_pid = (w.next_pid + 1) % 2 ^ 8;
        },
      )
    ])

-- It may switch to the new task.
unfoldable pub activate_task : ℕ → World → World × Bool
activate_task t w =
    let (k, switched) = scheduler_admit t (set_state t TaskState.ready w.kernel) in
    (
      record w { kernel = k; head = w.head ++ t ∷ []; active_task = (w.active_task + 1) % 2 ^ 8 },
      switched,
    )

-- the loop of `release_fds`, with the rounds that are left
unfoldable pub release_loop : (rounds fd t : ℕ) → World → Option World
release_loop zero fd t w = some w
release_loop (suc rounds) fd t w =
    let f = w.fdtable t fd in
    let put : Option World = elim (file_put (f - 1) w.files) [
      | none ↦ none
      | some files ↦ some (record w { files = files })
    ] in
    elim (if f == 0 then some w else put) [
      | none ↦ none
      | some w1 ↦ release_loop rounds (fd + 1) t w1
    ]

unfoldable pub release_fds : ℕ → World → Option World
release_fds t w = release_loop nofile 0 t w

abbrev pub on_run : World → Run → Option (World × Bool)
on_run w none = none
on_run w (some (k, switched)) = some (set_kernel w k, switched)

-- The files of the task are put, and the rest is the scheduler's.
unfoldable pub zombify : (t code : ℕ) → World → Option (World × Bool)
zombify t code w = if (w.kernel.task t).parent == 0 then none else (elim (release_fds t w) [
  | none ↦ none
  | some w1 ↦ on_run w1 (Sched.task_zombify t code w1.kernel)
])

abbrev pub on_pages : World → Option Pages → Option World
on_pages w none = none
on_pages w (some m) = some (set_pages w m)

-- The address space loses one of its tasks; the last one frees it. The result of `vpage_unmmap` is
-- not looked at.
unfoldable pub release_space : ℕ → World → Option World
release_space t w =
    let s = w.space t in
    elim (vpage_unmmap s.root_ptable s.tframe_va w.pages) [
      | none ↦ none
      | some (r, m) ↦ on_pages w (
          if page_get_ref_count s.root_ptable m == 1
          then vpage_tree_free s.root_ptable m
          else page_put s.root_ptable m)
    ]

unfoldable pub remove_from_all_queues : ℕ → World → World
remove_from_all_queues t w = record w {
  head = without t w.head;
  kernel = remove_from_sched_queues t w.kernel;
}

abbrev pub forget_task : Option World → Option World
forget_task none = none
forget_task (some w) = some (record w { active_task = (w.active_task + 2 ^ 8 - 1) % 2 ^ 8 })

unfoldable pub task_destroy : ℕ → World → Option World
task_destroy t w =
    let w1 = set_kernel w (set_state t TaskState.terminated w.kernel) in
    let w2 = remove_from_all_queues t w1 in
    let has_space = w2.user t && not ((w2.space t).root_ptable == 0) in
    if w.kernel.active == t
    then none
    else forget_task (if has_space then release_space t w2 else some w2)

abbrev pub set_fd : (t fd f : ℕ) → World → World
set_fd t fd f w = record w { fdtable = update w.fdtable t (update (w.fdtable t) fd f) }

-- An own file for the child, NULL if the table of files is full, or one more reference to the
-- parent's.
unfoldable pub copy_fd : (child fd f : ℕ) (clone : Bool) → World → Option World
copy_fd child fd f clone w =
    let shared = file_get (f - 1) w.files in
    let cloned : Option World = elim (file_clone (f - 1) w.files) [
      | none ↦ none
      | some (none, files) ↦ some (set_fd child fd 0 (record w { files = files }))
      | some (some slot, files) ↦ some (set_fd child fd (slot + 1) (record w { files = files }))
    ] in
    if clone then cloned else some (set_fd child fd f (record w { files = shared.1 }))

-- the loop of `copy_fds`, with the rounds that are left
unfoldable pub copy_loop : (rounds fd child parent : ℕ) (clone : Bool) → World → Option World
copy_loop zero fd child parent clone w = some w
copy_loop (suc rounds) fd child parent clone w =
    let f = w.fdtable parent fd in
    let copied = copy_fd child fd f clone w in
    elim (if f == 0 then some w else copied) [
      | none ↦ none
      | some w1 ↦ copy_loop rounds (fd + 1) child parent clone w1
    ]

unfoldable pub copy_fds : (child parent : ℕ) (clone : Bool) → World → Option World
copy_fds child parent clone w =
    if parent == 0 then some w else copy_loop nofile 0 child parent clone w

-- `exit_tgid_cb` for the tasks that are left of the table
unfoldable pub destroy_group : (tgid : ℕ) → List ℕ → World → Option World
destroy_group tgid [] w = some w
destroy_group tgid (t ∷ ts) w =
    let in_group = ((w.kernel.task t).tgid == tgid) && not (t == w.kernel.active) in
    elim (if in_group then task_destroy t w else some w) [
      | none ↦ none
      | some w1 ↦ destroy_group tgid ts w1
    ]

abbrev pub then_switch : Option (World × Bool) → Option (World × Bool)
then_switch none = none
then_switch (some (w, true)) = some (w, true)
then_switch (some (w, false)) = on_run w (Sched.switch_out_active w.kernel)

unfoldable pub exit_task : (code : ℕ) → World → Option (World × Bool)
exit_task code w = then_switch (zombify w.kernel.active code w)

unfoldable pub scheduler_exit_group : (code : ℕ) → World → Option (World × Bool)
scheduler_exit_group code w = elim (destroy_group (w.kernel.task w.kernel.active).tgid w.head w) [
  | none ↦ none
  | some w1 ↦ exit_task code w1
]
