-- ===== src/Sync/Quiet.antt =====
-- Semaphores where nobody waits.
use rv_mini_os.Prelude.{
  ℕ, suc, ◌+◌, ◌-◌, ◌<◌, ◌≡◌, leb, refl, false, some, [], arith, ◌==◌, update, ==_refl,
}
use rv_mini_os.Task.{WaitList}
use rv_mini_os.Sync.{Sys, int_max, give, wq_is_empty, sem_post, sem_try_take_unlocked, sem_wait}
use rv_mini_os.Sync.Unlock.{
  Calm, locked_state, unlocked_state, spinlock_lock-Calm, spinlock_unlock-plain,
}

-- The running task is outside of critical sections, the spinlock of a semaphore is free, and nobody
-- waits for it.
pub record Idle (a : ℕ) (s : Sys) : Type 0 where
  pub calm : Calm a s
  pub no_waiter : s.kernel.wait_list (WaitList.wq a) ≡ []

abbrev counted : ℕ → ℕ → Sys → Sys
counted a n s = record s { count = update s.count a n }

pub counted-Idle :
    (a n : ℕ) (s : Sys) → Idle a s → Idle a (unlocked_state a (counted a n (locked_state a s)))
counted-Idle a n s i = record {
  calm = record {
    outside = refl;
    no_resched = i.calm.no_resched;
    free = ground (arith, ==_refl a);
  };
  no_waiter = i.no_waiter;
}

pub fits : (a : ℕ) (s : Sys) → s.count a < int_max → leb int_max (s.count a) ≡ false
fits a s below = ground arith

pub sem_post-plain :
    (a : ℕ) (s : Sys)
    → Idle a s
    → s.count a < int_max
    → (s' : Sys) × (sem_post a s ≡ some (s', false)) × Idle a s' × (s'.count a ≡ s.count a + 1)
unfolding sem_post give wq_is_empty
sem_post-plain a s i below = (
  unlocked_state a (counted a (s.count a + 1) (locked_state a s)),
  rw (
    spinlock_lock-Calm a s i.calm,
    sem_post,
    give,
    wq_is_empty,
    i.no_waiter,
    fits a s below,
    spinlock_unlock-plain a (counted a (s.count a + 1) (locked_state a s)) refl i.calm.no_resched,
  ),
  counted-Idle a (s.count a + 1) s i,
  ground (arith, ==_refl a),
)

pub sem_wait-plain :
    (a n : ℕ) (s : Sys)
    → Idle a s
    → s.count a ≡ suc n
    → (s' : Sys) × (sem_wait a s ≡ some (s', false)) × Idle a s' × (s'.count a ≡ n)
unfolding sem_wait sem_try_take_unlocked
sem_wait-plain a n s i e =
    let some_left : (s.count a == 0) ≡ false = ground arith in
    (
      unlocked_state a (counted a (s.count a - 1) (locked_state a s)),
      rw (
        spinlock_lock-Calm a s i.calm,
        sem_wait,
        sem_try_take_unlocked,
        some_left,
        spinlock_unlock-plain a (counted a (s.count a - 1) (locked_state a s)) refl
            i.calm.no_resched,
      ),
      counted-Idle a (s.count a - 1) s i,
      ground (arith, ==_refl a),
    )
