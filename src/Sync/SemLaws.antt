-- ===== src/Sync/SemLaws.antt =====
-- Semaphores refine their specification.
use rv_mini_os.Prelude.{
  ℕ, zero, suc, ◌-◌, ◌≡◌, refl, sym, ◌∙◌, ap, Bool, true, false, ◌&&◌, some, List, [], ◌∷◌, ◌++◌,
  arith, ◌==◌, update, ==_refl, Bool-cases, inl, inr,
}
use rv_mini_os.Err.{ok, err, eagain}
use rv_mini_os.Task.{WaitList}
use rv_mini_os.Sched
use rv_mini_os.Sched.Block.{Blocked, scheduler_block_on-Blocked}
use rv_mini_os.Sync.{Sys, Outcome, lift, sem_try_take_unlocked, sem_wait}
use rv_mini_os.Sync.Unlock.{
  Calm, locked_state, unlocked_state, spinlock_lock-Calm, spinlock_unlock-plain,
}
use rv_mini_os.Sync.Blocking.{block_on_locked_lem}
use rv_mini_os.Sync.MutexLaws.{CanBlock}
use rv_mini_os.Sync.SemSpec
use rv_mini_os.Sync.SemSpec.{View}

abbrev pub view : ℕ → Sys → View
view a s = record { count = s.count a; waiters = s.kernel.wait_list (WaitList.wq a) }

-- How a call of the active task ends.
pub record Ends (a : ℕ) (v : View) (r : Outcome) : Type 0 where
  pub state : Sys
  pub switched : Bool
  pub returns : r ≡ some (state, switched)
  pub view_is : view a state ≡ v
  pub free : state.flag a ≡ false

take_unit_pos :
    (t n : ℕ) (ws : List ℕ)
    → (n == 0) ≡ false
    → SemSpec.take_unit t n ws ≡ record { count = n - 1; waiters = ws }
take_unit_pos t zero ws e = absurd (ground arith)
take_unit_pos t (suc n) ws e = ground arith

take_unit_zero :
    (t n : ℕ) (ws : List ℕ)
    → (n == 0) ≡ true
    → SemSpec.take_unit t n ws ≡ record { count = n; waiters = ws ++ t ∷ [] }
take_unit_zero t zero ws e = refl
take_unit_zero t (suc n) ws e = absurd (ground arith)

abbrev pub taken : ℕ → Sys → Sys
taken a s = record s { count = update s.count a (s.count a - 1) }

pub take-some :
    (a : ℕ) (s : Sys)
    → (s.count a == 0) ≡ false
    → (sem_try_take_unlocked a s ≡ (ok 0, taken a s))
      × ((t : ℕ) → SemSpec.wait t (view a s) ≡ view a (taken a s))
unfolding sem_try_take_unlocked SemSpec.wait
take-some a s e =
    (rw e, λ t. rw (==_refl a) (take_unit_pos t (s.count a) (s.kernel.wait_list (WaitList.wq a)) e))

pub take-none :
    (a : ℕ) (s : Sys)
    → (s.count a == 0) ≡ true
    → (sem_try_take_unlocked a s ≡ (err eagain, s))
      × ((t : ℕ)
          → SemSpec.wait t (view a s)
            ≡ record { count = s.count a; waiters = s.kernel.wait_list (WaitList.wq a) ++ t ∷ [] })
unfolding sem_try_take_unlocked SemSpec.wait
take-none a s e = (rw e, λ t. take_unit_zero t (s.count a) (s.kernel.wait_list (WaitList.wq a)) e)

-- For a task that holds no spinlock, with no switch due and the spinlock of the semaphore free, and
-- that the scheduler can block: `sem_wait` takes a unit and goes on if there is one; else the task
-- becomes the last waiter and another task runs. The spinlock is free again.
pub sem_wait_refines :
    (a : ℕ) (s : Sys)
    → Calm a s
    → CanBlock s
    → (e : Ends a (SemSpec.wait s.kernel.active (view a s)) (sem_wait a s)) × (e.switched
        ≡ (s.count a == 0))
      × (((s.count a == 0) && (e.state.kernel.active == s.kernel.active)) ≡ false)
unfolding sem_wait
sem_wait_refines a s c b = elim (Bool-cases (s.count a == 0)) [
  | inl out ↦
      let (g, gfree, blocks) = block_on_locked_lem a s c in
      let bl : Blocked s.kernel s.kernel.active (WaitList.wq a)
          (Sched.scheduler_block_on (WaitList.wq a) s.kernel) =
        scheduler_block_on-Blocked s.kernel (WaitList.wq a) b.can_switch b.placed b.not_idle
          b.waits_nowhere in
      (
        record {
          state = record s { flag = g; kernel = bl.switched.state };
          switched = true;
          returns =
              rw (spinlock_lock-Calm a s c, sem_wait, (take-none a (locked_state a s) out).0)
                (blocks ∙ ap (lift (record s { flag = g })) bl.switched.returns);
          view_is =
              ap (λ (ws : List ℕ). record { count = s.count a; waiters = ws }) bl.queued
              ∙ sym ((take-none a s out).1 s.kernel.active);
          free = gfree;
        },
        sym out,
        ground (arith, bl.other, bl.switched.active),
      )
  | inr some_left ↦
      let s1 : Sys = taken a (locked_state a s) in
      (
        record {
          state = unlocked_state a s1;
          switched = false;
          returns =
              rw (spinlock_lock-Calm a s c, sem_wait, (take-some a (locked_state a s) some_left).0)
                (spinlock_unlock-plain a s1 refl c.no_resched);
          view_is = sym ((take-some a s some_left).1 s.kernel.active);
          free = ground (arith, ==_refl a);
        },
        sym some_left,
        ground arith,
      )
]
