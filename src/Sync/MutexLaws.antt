-- ===== src/Sync/MutexLaws.antt =====
-- Mutexes refine their specification.
use rv_mini_os.Prelude.{
  ℕ, ◌≡◌, ◌≢◌, refl, sym, ◌∙◌, ap, Bool, true, false, ◌&&◌, none, some, arith, if◌then◌else◌, ◌==◌,
  ==_refl, Bool-cases, inl, inr,
}
use rv_mini_os.Err.{ok, err, ebusy}
use rv_mini_os.Task.{WaitList, idle}
use rv_mini_os.Sched
use rv_mini_os.Sched.Switch.{CanSwitch}
use rv_mini_os.Sched.Block.{Placed, Blocked, scheduler_block_on-Blocked}
use rv_mini_os.Sync.{
  Sys, Outcome, lift, set_mutex, mutex_trylock_unlocked, mutex_trylock, mutex_lock,
}
use rv_mini_os.Sync.Unlock.{
  Calm, locked_state, unlocked_state, spinlock_lock-Calm, spinlock_unlock-plain,
}
use rv_mini_os.Sync.Blocking.{block_on_locked_lem}
use rv_mini_os.Sync.MutexSpec
use rv_mini_os.Sync.MutexSpec.{View}

abbrev pub view : ℕ → Sys → View
view m s = record {
  owner = if (s.mutex m).locked then some (s.mutex m).owner else none;
  waiters = s.kernel.wait_list (WaitList.wq m);
}

-- How a call of the active task ends: it returns or gives up the processor, the lock of the mutex
-- is free again, and the view is the given one.
pub record Ends (m : ℕ) (v : View) (r : Outcome) : Type 0 where
  pub state : Sys
  pub switched : Bool
  pub returns : r ≡ some (state, switched)
  pub view_is : view m state ≡ v
  pub free : state.flag m ≡ false

-- What the scheduler needs to block the active task.
pub record CanBlock (s : Sys) : Type 0 where
  pub can_switch : CanSwitch s.kernel
  pub placed : Placed s.kernel
  pub not_idle : (s.kernel.task s.kernel.active).priority ≢ idle
  pub waits_nowhere : (s.kernel.task s.kernel.active).wait_on ≡ none

-- For a task that holds no spinlock, with no switch due and the spinlock of the mutex free, and
-- that the scheduler can block (it is not the idle task, stands in no wait queue, each ready task
-- stands in the queue of its priority alone, and the idle task is ready): `mutex_lock` takes a free
-- mutex and goes on; at a taken one the task becomes the last waiter and another task runs. The
-- spinlock is free again.
pub mutex_lock_refines :
    (m : ℕ) (s : Sys)
    → Calm m s
    → CanBlock s
    → (e : Ends m (MutexSpec.lock s.kernel.active (view m s)) (mutex_lock m s)) × (e.switched
        ≡ (s.mutex m).locked)
      × (((s.mutex m).locked && (e.state.kernel.active == s.kernel.active)) ≡ false)
unfolding mutex_lock mutex_trylock_unlocked MutexSpec.lock
mutex_lock_refines m s c b = elim (Bool-cases (s.mutex m).locked) [
  | inl taken ↦
      let (g, gfree, blocks) = block_on_locked_lem m s c in
      let bl : Blocked s.kernel s.kernel.active (WaitList.wq m)
          (Sched.scheduler_block_on (WaitList.wq m) s.kernel) =
        scheduler_block_on-Blocked s.kernel (WaitList.wq m) b.can_switch b.placed b.not_idle
          b.waits_nowhere in
      (
        record {
          state = record s { flag = g; kernel = bl.switched.state };
          switched = true;
          returns =
              rw (spinlock_lock-Calm m s c, mutex_lock, taken)
                (blocks ∙ ap (lift (record s { flag = g })) bl.switched.returns);
          view_is = rw (taken, bl.queued);
          free = gfree;
        },
        sym taken,
        ground (arith, bl.other, bl.switched.active),
      )
  | inr free ↦
      let s1 : Sys =
        set_mutex m (record { locked = true; owner = s.kernel.active }) (locked_state m s) in
      (
        record {
          state = unlocked_state m s1;
          switched = false;
          returns =
              rw (spinlock_lock-Calm m s c, mutex_lock, free)
                (spinlock_unlock-plain m s1 refl c.no_resched);
          view_is = rw (free, ==_refl m);
          free = ground (arith, ==_refl m);
        },
        sym free,
        ground arith,
      )
]

trylock-taken :
    (m : ℕ) (s : Sys) → (s.mutex m).locked ≡ true → mutex_trylock_unlocked m s ≡ (err ebusy, s)
unfolding mutex_trylock_unlocked
trylock-taken m s e = rw e

trylock-free :
    (m : ℕ) (s : Sys)
    → (s.mutex m).locked ≡ false
    → mutex_trylock_unlocked m s
      ≡ (ok 0, set_mutex m (record { locked = true; owner = s.kernel.active }) s)
unfolding mutex_trylock_unlocked
trylock-free m s e = rw e

-- For a task that holds no spinlock, with no switch due and the spinlock of the mutex free:
-- `mutex_trylock` takes a free mutex, and fails with EBUSY and changes neither owner nor waiters at
-- a taken one; it never waits, and frees the spinlock.
pub mutex_trylock_lem :
    (m : ℕ) (s : Sys)
    → Calm m s
    → (s' : Sys) × (mutex_trylock m s
        ≡ some (if (s.mutex m).locked then err ebusy else ok 0, (s', false)))
      × (view m s'
          ≡ (if (s.mutex m).locked then view m s else MutexSpec.lock s.kernel.active (view m s)))
      × (s'.flag m ≡ false)
unfolding mutex_trylock mutex_trylock_unlocked MutexSpec.lock
mutex_trylock_lem m s c = elim (Bool-cases (s.mutex m).locked) [
  | inl taken ↦ (
    unlocked_state m (locked_state m s),
    rw (
      spinlock_lock-Calm m s c,
      mutex_trylock,
      trylock-taken m (locked_state m s) taken,
      spinlock_unlock-plain m (locked_state m s) refl c.no_resched,
      taken,
    ),
    rw taken,
    ground (arith, ==_refl m),
  )
  | inr free ↦
      let s1 : Sys =
        set_mutex m (record { locked = true; owner = s.kernel.active }) (locked_state m s) in
      (
        unlocked_state m s1,
        rw (
          spinlock_lock-Calm m s c,
          mutex_trylock,
          trylock-free m (locked_state m s) free,
          spinlock_unlock-plain m s1 refl c.no_resched,
          free,
        ),
        rw (free, ==_refl m),
        ground (arith, ==_refl m),
      )
]
