-- ===== src/Time.antt =====
-- The timer, src/kernel/core/time/time.c: the interrupt that posts the semaphores `clock` and `tick`,
-- and a round of the daemon that waits for `tick`. The timer's register is left out, as is what the
-- clock daemon displays.
use rv_mini_os.Prelude.{◌+◌, ◌%◌, ◌^◌, ℕ, some, ◌==◌, if◌then◌else◌, false}
use rv_mini_os.Sched.{then_run, scheduler_wake_sleeping, scheduler_rotate}
use rv_mini_os.Sync.{Sys, Outcome, then_do, lift, sem_post, sem_wait}

unfoldable pub time_irq_handler : (clock tick : ℕ) → Sys → Outcome
time_irq_handler clock tick s =
    let k = s.kernel in
    let s1 = record s { kernel = record k { ticks = (k.ticks + 1) % 2 ^ 32 } } in
    then_do (if s1.kernel.ticks % 20 == 0 then sem_post clock s1 else some (s1, false))
      (sem_post tick)

-- what the tick daemon does for each tick
unfoldable pub tick_work : Sys → Outcome
tick_work s = lift s (then_run (some (scheduler_wake_sleeping s.kernel)) scheduler_rotate)

unfoldable pub tick_round : (tick : ℕ) → Sys → Outcome
tick_round tick s = then_do (sem_wait tick s) tick_work
