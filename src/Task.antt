-- ===== src/Task.antt =====
-- The task control block and the scheduler's globals: src/include/kernel/task.h and the statics of
-- src/kernel/core/task/task.c and src/kernel/core/sched/scheduler.c. A task is named by its
-- address, 0 is NULL. A clist is the list of its owners (Clist shows that the code keeps it so):
-- `ready_node` and `sleep_node` are in a list exactly if the task stands in the ready queue of its
-- priority, which never changes, or in the sleeping list; for `wait_node`, which may be in any wait
-- queue or zombie list, `wait_on` names the list.
use rv_mini_os.Prelude.{
  ℕ, ◌/◌, ◌+◌, ◌%◌, ◌^◌, Bool, true, false, Option, none, some, List, [], ◌∷◌, ◌++◌, ◌==◌, ltb,
  if◌then◌else◌, not, filter, update, is_some,
}

pub data TaskState : Type 0 where
  new running ready sleeping blocked terminated zombie : TaskState

-- the wait queue of a lock or semaphore, of the parent of a zombie, and the zombies of a parent
pub data WaitList : Type 0 where
  wq : ℕ → WaitList
  zombie_wq : ℕ → WaitList
  zombies : ℕ → WaitList

abbrev pub same_list : WaitList → WaitList → Bool
same_list (wq a) (wq b) = a == b
same_list (wq a) (zombie_wq b) = false
same_list (wq a) (zombies b) = false
same_list (zombie_wq a) (wq b) = false
same_list (zombie_wq a) (zombie_wq b) = a == b
same_list (zombie_wq a) (zombies b) = false
same_list (zombies a) (wq b) = false
same_list (zombies a) (zombie_wq b) = false
same_list (zombies a) (zombies b) = a == b

pub record Task : Type 0 where
  pub pid : ℕ
  pub tgid : ℕ
  pub state : TaskState
  pub priority : ℕ
  pub wait_on : Option WaitList
  pub wake_up_time : ℕ
  pub parent : ℕ
  pub exit_code : ℕ

-- `priority_higher`: HIGH is 0, NORMAL 1, LOW 2, IDLE 3
abbrev pub idle : ℕ
idle = 3

abbrev pub priority_count : ℕ
priority_count = 4

unfoldable pub priority_higher : ℕ → ℕ → Bool
priority_higher prior other = ltb prior other

pub record Kernel : Type 0 where
  pub task : ℕ → Task
  pub ready_queues : ℕ → List ℕ
  pub sleeping_head : List ℕ
  pub wait_list : WaitList → List ℕ
  pub highest_ready_tracking : ℕ
  pub preempt_count : ℕ
  pub need_resched : Bool
  pub active : ℕ
  pub ticks : ℕ

abbrev pub set_task : ℕ → Task → Kernel → Kernel
set_task t v k = record k { task = update k.task t v }

abbrev pub set_state : ℕ → TaskState → Kernel → Kernel
set_state t s k = set_task t (record (k.task t) { state = s }) k

-- The list without a task.
abbrev pub without : ℕ → List ℕ → List ℕ
without t xs = filter (λ x. not (x == t)) xs

abbrev pub update_list : (WaitList → List ℕ) → WaitList → List ℕ → WaitList → List ℕ
update_list f w v u = if same_list u w then v else f u

unfoldable pub wq_init : WaitList → Kernel → Kernel
wq_init w k = record k { wait_list = update_list k.wait_list w [] }

-- `clist_push_back` of `wait_node` on a wait queue or a zombie list
unfoldable pub wq_enqueue : WaitList → ℕ → Kernel → Kernel
wq_enqueue w t k = if is_some (k.task t).wait_on then k else record k {
  wait_list = update_list k.wait_list w (k.wait_list w ++ t ∷ []);
  task = update k.task t (record (k.task t) { wait_on = some w });
}

-- `clist_remove` of `wait_node` from whatever list it is in
unfoldable pub wq_remove : ℕ → Kernel → Kernel
wq_remove t k = elim (k.task t).wait_on [
  | none ↦ k
  | some w ↦ record k {
    wait_list = update_list k.wait_list w (without t (k.wait_list w));
    task = update k.task t (record (k.task t) { wait_on = none });
  }
]

unfoldable pub remove_from_blocking_queues : ℕ → Kernel → Kernel
remove_from_blocking_queues t k =
    wq_remove t (record k { sleeping_head = without t k.sleeping_head })

unfoldable pub ready_queue_remove : ℕ → Kernel → Kernel
ready_queue_remove t k =
    let p = (k.task t).priority in
    record k { ready_queues = update k.ready_queues p (without t (k.ready_queues p)) }

unfoldable pub remove_from_sched_queues : ℕ → Kernel → Kernel
remove_from_sched_queues t k = remove_from_blocking_queues t (ready_queue_remove t k)

unfoldable pub time_seconds : Kernel → ℕ
time_seconds k = k.ticks / 20

-- `uint32_t + uint32_t` wraps before it is stored in the 64-bit field.
unfoldable pub task_sleep : ℕ → ℕ → Kernel → Kernel
task_sleep t delay k =
    set_task t
      (record (k.task t) { state = sleeping; wake_up_time = (delay + time_seconds k) % 2 ^ 32 }) k

unfoldable pub task_block : ℕ → Kernel → Kernel
task_block t k = set_state t blocked k

-- whether `task_wake` acts on a task in this state
abbrev pub is_waiting : TaskState → Bool
is_waiting sleeping = true
is_waiting blocked = true
is_waiting new = false
is_waiting running = false
is_waiting ready = false
is_waiting terminated = false
is_waiting zombie = false

-- whether `task_zombify` wakes the parent
abbrev pub is_blocked : TaskState → Bool
is_blocked blocked = true
is_blocked new = false
is_blocked running = false
is_blocked ready = false
is_blocked sleeping = false
is_blocked terminated = false
is_blocked zombie = false

unfoldable pub task_wake : ℕ → Kernel → Kernel
task_wake t k =
    if is_waiting (k.task t).state then set_state t running (remove_from_blocking_queues t k) else k

-- the demotion of `task_switch_active`
abbrev pub demoted : TaskState → TaskState
demoted running = ready
demoted new = new
demoted ready = ready
demoted sleeping = sleeping
demoted blocked = blocked
demoted terminated = terminated
demoted zombie = zombie

unfoldable pub task_switch_active : ℕ → Kernel → Kernel
task_switch_active next k =
    let k1 = set_state k.active (demoted (k.task k.active).state) k in
    record (set_state next running k1) { active = next }
