-- ===== src/Sync/MutexUnlock.antt =====
-- `mutex_unlock` refines its specification: the first waiter is the next owner.
use rv_mini_os.Prelude.{
  ℕ, ◌≡◌, ◌≢◌, refl, sym, ◌∙◌, ap, true, false, ◌&&◌, none, some, List, [], ◌∷◌, arith,
  if◌then◌else◌, ◌==◌, update, ==_refl, Bool-cases, ◌⊎◌, inl, inr,
}
use rv_mini_os.Task.{Kernel, WaitList, wq_remove}
use rv_mini_os.Sched
use rv_mini_os.Sched.Highest.{List-cases}
use rv_mini_os.Sync.{Sys, Outcome, set_mutex, spinlock_unlock, mutex_unlock, hand_over, wq_is_empty}
use rv_mini_os.Sync.Unlock.{
  Calm, locked_state, spinlock_lock-Calm, Released, spinlock_unlock-Released,
}
use rv_mini_os.Sync.Waking.{IsWaitQueue, pop-cons, Readied, ready_task-Readied}
use rv_mini_os.Sync.MutexSpec
use rv_mini_os.Sync.MutexSpec.{View}
use rv_mini_os.Sync.MutexLaws.{view, Ends}

-- The parts of `mutex_unlock` inside the spinlock.
record HandsOver (m : ℕ) (s : Sys) (r : Outcome) : Type 0 where
  state : Sys
  returns : r ≡ some (state, false)
  view_is : view m state ≡ MutexSpec.unlock s.kernel.active (view m s)
  inside : state.kernel.preempt_count ≡ 1
  tracked : state.kernel.ready_queues state.kernel.highest_ready_tracking ≢ []

hand_over-stays :
    (m : ℕ) (s : Sys)
    → ((s.mutex m).locked ≡ false) ⊎ ((s.mutex m).owner ≢ s.kernel.active)
    → (hand_over m s ≡ some (s, false)) × (view m s ≡ MutexSpec.unlock s.kernel.active (view m s))
unfolding hand_over MutexSpec.unlock
hand_over-stays m s h = ground arith

hand_over-wakes :
    (m : ℕ) (s : Sys) (t : ℕ) (ts : List ℕ)
    → (s.mutex m).locked ≡ true
    → (s.mutex m).owner ≡ s.kernel.active
    → s.kernel.preempt_count ≡ 1
    → s.kernel.ready_queues s.kernel.highest_ready_tracking ≢ []
    → IsWaitQueue s.kernel (WaitList.wq m)
    → s.kernel.wait_list (WaitList.wq m) ≡ t ∷ ts
    → HandsOver m s (hand_over m s)
unfolding hand_over MutexSpec.unlock wq_is_empty
hand_over-wakes m s t ts taken own inside tracked q e =
    let p = pop-cons s.kernel (WaitList.wq m) t ts q e in
    let k : Kernel = wq_remove t s.kernel in
    let r : Readied k t (Sched.scheduler_ready_task t k) =
      ready_task-Readied t k (p.4 ∙ inside) p.2 (λ z. tracked (
        ap (λ (g : ℕ → List ℕ). g s.kernel.highest_ready_tracking) (sym p.5)
        ∙ ap k.ready_queues (sym p.6)
        ∙ z)) in
    record {
      state = record s {
        kernel = (Sched.scheduler_ready_task t k).0;
        mutex = update s.mutex m (record (s.mutex m) { owner = t });
      };
      returns = rw (taken, own, ==_refl s.kernel.active, hand_over, wq_is_empty, e, p.0, r.stays);
      view_is = rw (taken, own, ==_refl s.kernel.active, e, ==_refl m, r.waits, p.1);
      inside = r.preempt;
      tracked = r.tracked;
    }

hand_over-frees :
    (m : ℕ) (s : Sys)
    → (s.mutex m).locked ≡ true
    → (s.mutex m).owner ≡ s.kernel.active
    → s.kernel.preempt_count ≡ 1
    → s.kernel.ready_queues s.kernel.highest_ready_tracking ≢ []
    → s.kernel.wait_list (WaitList.wq m) ≡ []
    → HandsOver m s (hand_over m s)
unfolding hand_over MutexSpec.unlock wq_is_empty
hand_over-frees m s taken own inside tracked e = record {
  state = set_mutex m (record { locked = false; owner = 0 }) s;
  returns = rw (taken, own, ==_refl s.kernel.active, hand_over, wq_is_empty, e);
  view_is = rw (taken, own, ==_refl s.kernel.active, e, ==_refl m);
  inside = inside;
  tracked = tracked;
}

hand_over-HandsOver :
    (m : ℕ) (s : Sys)
    → s.kernel.preempt_count ≡ 1
    → s.kernel.ready_queues s.kernel.highest_ready_tracking ≢ []
    → IsWaitQueue s.kernel (WaitList.wq m)
    → HandsOver m s (hand_over m s)
hand_over-HandsOver m s inside tracked q =
    elim (Bool-cases ((s.mutex m).locked && ((s.mutex m).owner == s.kernel.active))) [
      | inr not_own ↦
          let st = hand_over-stays m s (ground arith) in
          record { state = s; returns = st.0; view_is = st.1; inside = inside; tracked = tracked }
      | inl own ↦ elim (List-cases (s.kernel.wait_list (WaitList.wq m))) [
        | inl e ↦ hand_over-frees m s (ground arith) (ground arith) inside tracked e
        | inr (t, ts, e) ↦ hand_over-wakes m s t ts (ground arith) (ground arith) inside tracked q e
      ]
    ]

view-Released :
    (m : ℕ) (s : Sys) (r : Released m s (spinlock_unlock m s)) → view m r.state ≡ view m s
view-Released m s r = λ i. record {
  owner = if (r.mutexes i m).locked then some (r.mutexes i m).owner else none;
  waiters = r.waits i (WaitList.wq m);
}

-- For a task that holds no spinlock, with no switch due, the spinlock of the mutex free, a task in
-- the tracked ready queue and a well-formed wait queue: `mutex_unlock` by a task that is not the
-- owner leaves the mutex as it is; by the owner it makes the first waiter the owner, and frees the
-- mutex if there is none. It always returns or lets another task run, and frees the spinlock.
pub mutex_unlock_refines :
    (m : ℕ) (s : Sys)
    → Calm m s
    → s.kernel.ready_queues s.kernel.highest_ready_tracking ≢ []
    → IsWaitQueue s.kernel (WaitList.wq m)
    → Ends m (MutexSpec.unlock s.kernel.active (view m s)) (mutex_unlock m s)
unfolding mutex_unlock
mutex_unlock_refines m s c tracked q =
    let s1 : Sys = locked_state m s in
    let h : HandsOver m s1 (hand_over m s1) =
      hand_over-HandsOver m s1 refl tracked (record { here = q.here; once = q.once }) in
    let r : Released m h.state (spinlock_unlock m h.state) =
      spinlock_unlock-Released m h.state h.inside h.tracked in
    record {
      state = r.state;
      switched = r.switched;
      returns = rw (spinlock_lock-Calm m s c, mutex_unlock, h.returns) r.returns;
      view_is = view-Released m h.state r ∙ h.view_is;
      free = r.free;
    }
