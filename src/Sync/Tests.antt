-- ===== src/Sync/Tests.antt =====
-- The theorems on src/kernel/core/sync at a lock with a waiter.
use rv_mini_os.Prelude.{◌≡◌, refl, true, false, some, [], ◌∷◌, arith, update, ◌==◌, ◌&&◌}
use rv_mini_os.Task.{Kernel, TaskState, WaitList, update_list}
use rv_mini_os.Sched.Tests.{four_tasks, four_tasks-CanSwitch, four_tasks-Placed}
use rv_mini_os.Sync.{Sys, mutex_lock, mutex_unlock, sem_wait, sem_post}
use rv_mini_os.Sync.Unlock.{Calm}
use rv_mini_os.Sync.Waking.{IsWaitQueue}
use rv_mini_os.Sync.MutexSpec
use rv_mini_os.Sync.MutexLaws
use rv_mini_os.Sync.MutexUnlock.{mutex_unlock_refines}
use rv_mini_os.Sync.SemSpec
use rv_mini_os.Sync.SemLaws
use rv_mini_os.Sync.SemPost.{Posted, sem_post_refines}

-- Task 8 waits for the lock 9.
abbrev one_waiter : Kernel
one_waiter = record four_tasks {
  task =
      update four_tasks.task 8
        (record (four_tasks.task 8) { state = TaskState.blocked; wait_on = some (WaitList.wq 9) });
  wait_list = update_list (λ w. []) (WaitList.wq 9) (8 ∷ []);
}

-- Task 3, which runs, holds the mutex 9; the semaphore 9 has no unit left.
abbrev held : Sys
held = record {
  kernel = one_waiter;
  mutex = λ m. record { locked = true; owner = 3 };
  count = λ a. 0;
  flag = λ l. false;
}

-- Task 5 holds the mutex 9 and nobody waits.
abbrev taken_by_other : Sys
taken_by_other = record held {
  kernel = four_tasks;
  mutex = λ m. record { locked = true; owner = 5 };
}

held-Calm : Calm 9 held
held-Calm = record { outside = refl; no_resched = refl; free = refl }

other-Calm : Calm 9 taken_by_other
other-Calm = record { outside = refl; no_resched = refl; free = refl }

other-CanBlock : MutexLaws.CanBlock taken_by_other
other-CanBlock = record {
  can_switch = four_tasks-CanSwitch;
  placed = four_tasks-Placed;
  not_idle = omega arith;
  waits_nowhere = refl;
}

held-IsWaitQueue : IsWaitQueue held.kernel (WaitList.wq 9)
held-IsWaitQueue = record { here = λ t h. ground arith; once = (refl, tt) }

mutex_lock_refines_example :
    (e : MutexLaws.Ends 9
      (MutexSpec.lock 3 (MutexLaws.view 9 taken_by_other))
      (mutex_lock 9 taken_by_other))
    × (e.switched ≡ true)
    × ((true && (e.state.kernel.active == 3)) ≡ false)
mutex_lock_refines_example = MutexLaws.mutex_lock_refines 9 taken_by_other other-Calm other-CanBlock

mutex_unlock_refines_example :
    MutexLaws.Ends 9 (MutexSpec.unlock 3 (MutexLaws.view 9 held)) (mutex_unlock 9 held)
mutex_unlock_refines_example = mutex_unlock_refines 9 held held-Calm (λ e. cc) held-IsWaitQueue

sem_wait_refines_example :
    (e : SemLaws.Ends 9
      (SemSpec.wait 3 (SemLaws.view 9 taken_by_other))
      (sem_wait 9 taken_by_other))
    × (e.switched ≡ true)
    × ((true && (e.state.kernel.active == 3)) ≡ false)
sem_wait_refines_example = SemLaws.sem_wait_refines 9 taken_by_other other-Calm other-CanBlock

sem_post_refines_example : Posted 9 held (sem_post 9 held)
sem_post_refines_example =
    sem_post_refines 9 held held-Calm (λ e. cc) held-IsWaitQueue (omega arith)
