-- ===== src/Sched.antt =====
-- The scheduler, src/kernel/core/sched/scheduler.c. An operation gives the new state and whether it
-- switched to another task; what the source does behind a switch runs when the task is resumed, so
-- a sequence stops at a switch (`then_run`). `none` is a fault: the scheduler follows the NULL that
-- an empty ready queue gives, or a panic. Interrupt masking is left out: an operation that masks
-- interrupts is one step.
pub mod Highest
pub mod Switch
pub mod Block
pub mod Sleep
pub mod Wake
pub mod Pass
pub mod Tests
use rv_mini_os.Prelude.{
  ℕ, zero, suc, ◌+◌, ◌-◌, ◌%◌, ◌^◌, Bool, true, false, ◌||◌, ◌&&◌, not, Option, none, some, List,
  [], ◌∷◌, ◌++◌, ◌==◌, ltb, if◌then◌else◌, has, update,
}
use rv_mini_os.Task.{
  Kernel, Task, WaitList, is_blocked, TaskState, idle, priority_count, priority_higher, set_task,
  set_state, wq_enqueue, wq_remove, ready_queue_remove, remove_from_sched_queues, time_seconds,
  task_sleep, task_block, task_wake, task_switch_active, without,
}

abbrev pub Run : Type 0
Run = Option (Kernel × Bool)

abbrev pub then_run : Run → (Kernel → Run) → Run
then_run none f = none
then_run (some (k, true)) f = some (k, true)
then_run (some (k, false)) f = f k

unfoldable pub ready_queue_enqueue : ℕ → Kernel → Kernel
ready_queue_enqueue t k =
    let p = (k.task t).priority in
    if has t (k.ready_queues p)
    then k
    else record k { ready_queues = update k.ready_queues p (k.ready_queues p ++ t ∷ []) }

unfoldable pub update_highest : ℕ → Kernel → Kernel
update_highest t k =
    if priority_higher (k.task t).priority k.highest_ready_tracking
    then record k { highest_ready_tracking = (k.task t).priority }
    else k

unfoldable pub do_ctx_switch : ℕ → Kernel → Kernel × Bool
do_ctx_switch next k = (task_switch_active next k, true)

unfoldable pub check_and_preempt : ℕ → Kernel → Kernel × Bool
check_and_preempt t k =
    if k.active == 0
    then (k, false)
    else if priority_higher (k.task t).priority (k.task k.active).priority
    then (if ltb 0 k.preempt_count
        then (record k { need_resched = true }, false)
        else do_ctx_switch t k)
    else (k, false)

-- the loop of `refresh_highest_prio`, with the rounds that are left
unfoldable pub scan : ℕ → ℕ → Kernel → ℕ
scan zero p k = k.highest_ready_tracking
scan (suc rounds) p k =
    let further = scan rounds (p + 1) k in elim (k.ready_queues p) [ [] ↦ further | x ∷ xs ↦ p ]

unfoldable pub refresh_highest_prio : Kernel → Kernel
refresh_highest_prio k = elim (k.ready_queues k.highest_ready_tracking) [
  | [] ↦ record k {
    highest_ready_tracking =
        scan (priority_count - (k.highest_ready_tracking + 1)) (k.highest_ready_tracking + 1) k;
  }
  | x ∷ xs ↦ k
]

unfoldable pub switch_out_active : Kernel → Run
switch_out_active k =
    let k' = refresh_highest_prio k in
    elim (k'.ready_queues k'.highest_ready_tracking) [
      | [] ↦ none
      | next ∷ rest ↦ some (do_ctx_switch next k')
    ]

unfoldable pub scheduler_admit : ℕ → Kernel → Kernel × Bool
scheduler_admit t k = check_and_preempt t (update_highest t (ready_queue_enqueue t k))

unfoldable pub scheduler_ready_task : ℕ → Kernel → Kernel × Bool
scheduler_ready_task t k =
    check_and_preempt t (ready_queue_enqueue t (update_highest t (task_wake t k)))

-- The queue after its rotation, and the task that is first then.
unfoldable pub rotate_ready_queue : List ℕ → Option (List ℕ × ℕ)
rotate_ready_queue [] = none
rotate_ready_queue (x ∷ []) = some (x ∷ [], x)
rotate_ready_queue (x ∷ y ∷ ys) = some (y ∷ (ys ++ x ∷ []), y)

unfoldable pub scheduler_rotate : Kernel → Run
scheduler_rotate k =
    if ltb 0 k.preempt_count
    then some (k, false)
    else (elim (rotate_ready_queue (k.ready_queues k.highest_ready_tracking)) [
      | none ↦ none
      | some (queue, next) ↦
          let k' = record k {
            ready_queues = update k.ready_queues k.highest_ready_tracking queue;
          } in
          if next == k.active then some (k', false) else some (do_ctx_switch next k')
    ])

unfoldable pub scheduler_disable_preempt : Kernel → Kernel
scheduler_disable_preempt k = record k { preempt_count = (k.preempt_count + 1) % 2 ^ 32 }

unfoldable pub scheduler_enable_preempt : Kernel → Run
scheduler_enable_preempt k =
    let k1 = record k { preempt_count = (k.preempt_count + 2 ^ 32 - 1) % 2 ^ 32 } in
    if (k1.preempt_count == 0) && k1.need_resched
    then scheduler_rotate (record k1 { need_resched = false })
    else some (k1, false)

-- `clist_insert_sorted` by `wake_up_cmp`
unfoldable pub insert_by_time : (ℕ → Task) → ℕ → List ℕ → List ℕ
insert_by_time task t [] = t ∷ []
insert_by_time task t (x ∷ xs) =
    if ltb (task t).wake_up_time (task x).wake_up_time
    then t ∷ x ∷ xs
    else x ∷ insert_by_time task t xs

unfoldable pub insert_sleep : ℕ → Kernel → Kernel
insert_sleep t k =
    if has t k.sleeping_head
    then k
    else record k { sleeping_head = insert_by_time k.task t k.sleeping_head }

unfoldable pub scheduler_sleep : ℕ → Kernel → Run
scheduler_sleep secs k =
    let t = k.active in
    switch_out_active (insert_sleep t (task_sleep t secs (ready_queue_remove t k)))

-- `wake_up_sleeping_cb`
unfoldable pub wake_up_sleeping : ℕ → ℕ → Kernel → Kernel × Bool
wake_up_sleeping now t k =
    if ltb now (k.task t).wake_up_time
    then (k, false)
    else scheduler_ready_task t (record k { sleeping_head = without t k.sleeping_head })

-- `clist_for_each` over the sleeping list; it stops where a switch suspends it.
unfoldable pub wake_all_sleeping : ℕ → List ℕ → Kernel → Kernel × Bool
wake_all_sleeping now [] k = (k, false)
wake_all_sleeping now (t ∷ ts) k =
    let (k', switched) = wake_up_sleeping now t k in
    let rest = wake_all_sleeping now ts k' in if switched then (k', true) else rest

unfoldable pub scheduler_wake_sleeping : Kernel → Kernel × Bool
scheduler_wake_sleeping k = wake_all_sleeping (time_seconds k) k.sleeping_head k

unfoldable pub move_to_wq : ℕ → WaitList → Kernel → Kernel
move_to_wq t w k = wq_enqueue w t (task_block t (ready_queue_remove t k))

unfoldable pub scheduler_block_on : WaitList → Kernel → Run
scheduler_block_on w k = switch_out_active (move_to_wq k.active w k)

unfoldable pub scheduler_block_on_with_timeout : WaitList → ℕ → Kernel → Run
scheduler_block_on_with_timeout w secs k =
    let t = k.active in
    let k1 = move_to_wq t w k in
    switch_out_active (if ltb 0 secs then insert_sleep t (task_sleep t secs k1) else k1)

-- `clist_for_each_and_del` over a wait queue: each task is detached, then woken. A switch before the
-- last task is outside of the model, `none`: the walk goes on when the task runs again, and until then
-- the sentinel is linked to the tasks that are left in one direction only.
unfoldable pub wake_all_waiting : List ℕ → Kernel → Run
wake_all_waiting [] k = some (k, false)
wake_all_waiting (t ∷ ts) k =
    let (k', switched) = scheduler_ready_task t (wq_remove t k) in
    let rest = wake_all_waiting ts k' in
    if not switched then rest else (elim ts [ [] ↦ some (k', true) | u ∷ us ↦ none ])

unfoldable pub scheduler_wake_waiting_queue : WaitList → Kernel → Run
scheduler_wake_waiting_queue w k = wake_all_waiting (k.wait_list w) k

-- `task_zombify`, but for `release_fds`, which works on the open files. `exit_code` is stored as a
-- byte.
unfoldable pub task_zombify : ℕ → ℕ → Kernel → Run
task_zombify t code k =
    let parent = (k.task t).parent in
    let k1 =
      set_task t (record (k.task t) { state = TaskState.zombie; exit_code = code % 2 ^ 8 }) k in
    let k2 = wq_enqueue (WaitList.zombies parent) t (remove_from_sched_queues t k1) in
    if parent == 0
    then none
    else if is_blocked (k2.task parent).state
    then scheduler_wake_waiting_queue (WaitList.zombie_wq parent) k2
    else some (k2, false)

-- A switch back to the zombie would reach the panic; `switch_out_active` leaves it for good.
unfoldable pub scheduler_exit : ℕ → Kernel → Run
scheduler_exit code k = then_run (task_zombify k.active code k) switch_out_active

abbrev pub empty_queues : ℕ → List ℕ
empty_queues p = []

unfoldable pub scheduler_init : Kernel → Kernel
scheduler_init k = record k {
  ready_queues = empty_queues;
  highest_ready_tracking = idle;
  sleeping_head = [];
}
