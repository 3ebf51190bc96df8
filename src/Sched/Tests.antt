-- ===== src/Sched/Tests.antt =====
-- The theorems on src/kernel/core/sched/scheduler.c at a kernel with four tasks.
use rv_mini_os.Prelude.{
  ℕ, ◌≡◌, refl, true, false, none, [], ◌∷◌, arith, update, has, ◌==◌, if◌then◌else◌, filter,
}
use rv_mini_os.Task.{Kernel, Task, TaskState, WaitList, time_seconds}
use rv_mini_os.Sched
use rv_mini_os.Sched.Highest.{Tracks}
use rv_mini_os.Sched.Switch.{CanSwitch}
use rv_mini_os.Sched.Block.{Placed, Blocked, scheduler_block_on-Blocked}
use rv_mini_os.Sched.Sleep.{Slept, scheduler_sleep-Slept}
use rv_mini_os.Sched.Pass.{sleeps_on, wake_sleeping-filter, wake_sleeping-ready}

abbrev a_task : ℕ → TaskState → ℕ → Task
a_task priority state wake_up_time = record {
  pid = 1;
  tgid = 1;
  state = state;
  priority = priority;
  wait_on = none;
  wake_up_time = wake_up_time;
  parent = 0;
  exit_code = 0;
}

-- Task 3 runs, 5 is ready beside it, 6 sleeps until second 4, and 7 is the idle task.
abbrev pub four_tasks : Kernel
four_tasks = record {
  task = λ t.
      if t == 7
      then a_task 3 TaskState.ready 0
      else if t == 6
      then a_task 1 TaskState.sleeping 4
      else if t == 3
      then a_task 1 TaskState.running 0
      else a_task 1 TaskState.ready 0;
  ready_queues = update (update (λ p. []) 1 (3 ∷ 5 ∷ [])) 3 (7 ∷ []);
  sleeping_head = 6 ∷ [];
  wait_list = λ w. [];
  highest_ready_tracking = 1;
  preempt_count = 0;
  need_resched = false;
  active = 3;
  ticks = 100;
}

four_tasks-Tracks : Tracks four_tasks
four_tasks-Tracks p h = ground arith

pub four_tasks-CanSwitch : CanSwitch four_tasks
four_tasks-CanSwitch = record {
  tracks = four_tasks-Tracks;
  in_range = omega arith;
  idle_ready = λ e. cc;
}

pub four_tasks-Placed : Placed four_tasks
four_tasks-Placed p t h = ground arith

scheduler_block_on-Blocked_example :
    Blocked four_tasks 3 (WaitList.wq 9) (Sched.scheduler_block_on (WaitList.wq 9) four_tasks)
scheduler_block_on-Blocked_example =
    scheduler_block_on-Blocked four_tasks (WaitList.wq 9) four_tasks-CanSwitch four_tasks-Placed
      (omega arith) refl

scheduler_sleep-Slept_example : Slept four_tasks 3 2 (Sched.scheduler_sleep 2 four_tasks)
scheduler_sleep-Slept_example =
    scheduler_sleep-Slept four_tasks 2 four_tasks-CanSwitch four_tasks-Placed (omega arith) refl
      (tt, tt)

-- The same with a running task of priority HIGH.
abbrev daemon_runs : Kernel
daemon_runs = record four_tasks {
  task = update four_tasks.task 3 (a_task 0 TaskState.running 0);
  ready_queues = update four_tasks.ready_queues 0 (3 ∷ []);
  highest_ready_tracking = 0;
}

wake_sleeping-filter_example :
    let (k', switched) = Sched.scheduler_wake_sleeping daemon_runs in
    (switched ≡ false)
    × (k'.active ≡ 3)
    × (k'.sleeping_head ≡ filter (sleeps_on (time_seconds daemon_runs) daemon_runs) (6 ∷ []))
wake_sleeping-filter_example = wake_sleeping-filter daemon_runs refl

time_is_five : time_seconds daemon_runs ≡ 5
unfolding time_seconds
time_is_five = refl

wake_sleeping-ready_example :
    has 6 ((Sched.scheduler_wake_sleeping daemon_runs).0.ready_queues 1) ≡ true
wake_sleeping-ready_example =
    wake_sleeping-ready daemon_runs refl 6 refl (omega (arith, time_is_five))
