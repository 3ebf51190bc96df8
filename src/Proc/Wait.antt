-- ===== src/Proc/Wait.antt =====
-- Waiting for children: src/kernel/core/syscall/sys_sync.c, with `task_reap` of
-- src/include/kernel/task.h. A call that waits ends at the switch, and is made again when the task
-- is resumed. A pid is the byte of the `int8_t` that the user gives.
use rv_mini_os.Prelude.{
  ℕ, Bool, true, false, ◌&&◌, Option, none, some, List, [], ◌∷◌, ◌==◌, ltb, if◌then◌else◌, find?,
}
use rv_mini_os.Task.{TaskState, WaitList, wq_remove}
use rv_mini_os.Sched.{scheduler_block_on}
use rv_mini_os.Proc.{World, set_kernel, on_run, task_destroy}

abbrev pub is_zombie : TaskState → Bool
is_zombie TaskState.zombie = true
is_zombie TaskState.new = false
is_zombie TaskState.running = false
is_zombie TaskState.ready = false
is_zombie TaskState.sleeping = false
is_zombie TaskState.blocked = false
is_zombie TaskState.terminated = false

unfoldable pub task_reap : ℕ → World → Option World
task_reap t w =
    let reaped = task_destroy t w in if is_zombie (w.kernel.task t).state then reaped else some w

-- the pid that is returned, or none after a switch
abbrev pub Waited : Type 0
Waited = Option (Option ℕ × World)

abbrev pub suspended : Option (World × Bool) → Waited
suspended none = none
suspended (some (w, switched)) = some (none, w)

-- the end of both calls, with the pid that they return
unfoldable pub reap_child : (t pid : ℕ) → World → Waited
reap_child t pid w = elim (task_reap t (set_kernel w (wq_remove t w.kernel))) [
  | none ↦ none
  | some w1 ↦ some (some pid, w1)
]

abbrev pub zombies_of : ℕ → World → List ℕ
zombies_of t w = w.kernel.wait_list (WaitList.zombies t)

unfoldable pub wait_child : World → Waited
wait_child w =
    suspended (on_run w (scheduler_block_on (WaitList.zombie_wq w.kernel.active) w.kernel))

unfoldable pub sys_wait : World → Waited
sys_wait w = elim (zombies_of w.kernel.active w) [
  | [] ↦ wait_child w
  | t ∷ ts ↦ reap_child t (w.kernel.task t).pid w
]

-- The pid is an `int8_t` and that of the task a `uint8_t`: as an `int` the one is negative from 128
-- on, and the other is not.
unfoldable pub find_pid : (pid : ℕ) → World → ℕ → Bool
find_pid pid w t = ltb pid 128 && ((w.kernel.task t).pid == pid)

unfoldable pub sys_waitpid : (pid : ℕ) → World → Waited
sys_waitpid pid w = elim (find? (find_pid pid w) (zombies_of w.kernel.active w)) [
  | none ↦ wait_child w
  | some t ↦ reap_child t pid w
]
