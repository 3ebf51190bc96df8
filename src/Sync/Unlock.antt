-- ===== src/Sync/Unlock.antt =====
-- Entering and leaving a spinlock, and blocking under one, for a task that is not in the middle of
-- another critical section.
use rv_mini_os.Prelude.{
  ℕ, ◌≡◌, ◌≢◌, refl, Bool, true, false, some, List, [], ◌∷◌, ◌++◌, arith, ◌==◌, ltb, update,
  ==_refl, ==_iff, has, has-append, sym, ap, some-inj, Bool-cases, inl, inr,
}
use rv_mini_os.Task.{Kernel, task_switch_active}
use rv_mini_os.Sched
use rv_mini_os.Sync.{Sys, Outcome, spinlock_lock, spinlock_unlock}

-- The task holds no spinlock, no switch is due, and the lock is free.
pub record Calm (l : ℕ) (s : Sys) : Type 0 where
  pub outside : s.kernel.preempt_count ≡ 0
  pub no_resched : s.kernel.need_resched ≡ false
  pub free : s.flag l ≡ false

-- the state inside the lock
abbrev pub locked_state : ℕ → Sys → Sys
locked_state l s = record s {
  kernel = record (s.kernel) { preempt_count = 1 };
  flag = update s.flag l true;
}

pub spinlock_lock-Calm : (l : ℕ) (s : Sys) → Calm l s → spinlock_lock l s ≡ some (locked_state l s)
unfolding spinlock_lock Sched.scheduler_disable_preempt
spinlock_lock-Calm l s c = rw (c.outside, c.free)

-- the state outside the lock again
abbrev pub unlocked_state : ℕ → Sys → Sys
unlocked_state l s = record s {
  kernel = record (s.kernel) { preempt_count = 0 };
  flag = update s.flag l false;
}

pub spinlock_unlock-plain :
    (l : ℕ) (s : Sys)
    → s.kernel.preempt_count ≡ 1
    → s.kernel.need_resched ≡ false
    → spinlock_unlock l s ≡ some (unlocked_state l s, false)
unfolding spinlock_unlock Sched.scheduler_enable_preempt
spinlock_unlock-plain l s e f = rw (e, f)

-- What a deferred switch leaves alone.
pub record Rotated (k : Kernel) (r : Sched.Run) : Type 0 where
  pub state : Kernel
  pub switched : Bool
  pub returns : r ≡ some (state, switched)
  pub waits : state.wait_list ≡ k.wait_list
  pub wait_on : (t : ℕ) → (state.task t).wait_on ≡ (k.task t).wait_on
  pub tracked : state.highest_ready_tracking ≡ k.highest_ready_tracking
  pub ready : (p u : ℕ) → has u (k.ready_queues p) ≡ true → has u (state.ready_queues p) ≡ true

List-view : (xs : List ℕ) → xs ≢ [] → (y : ℕ) × (ys : List ℕ) × (xs ≡ y ∷ ys)
List-view [] ne = absurd (ne refl)
List-view (x ∷ xs) ne = (x, xs, refl)

rotate_ready_queue-some :
    (xs : List ℕ) → xs ≢ [] → (q : List ℕ × ℕ) × (Sched.rotate_ready_queue xs ≡ some q)
unfolding Sched.rotate_ready_queue
rotate_ready_queue-some [] ne = absurd (ne refl)
rotate_ready_queue-some (x ∷ []) ne = ((x ∷ [], x), refl)
rotate_ready_queue-some (x ∷ y ∷ ys) ne = ((y ∷ (ys ++ x ∷ []), y), refl)

switch-wait_on :
    (t u : ℕ) (k : Kernel)
    → ((task_switch_active t k).wait_list ≡ k.wait_list)
      × (((task_switch_active t k).task u).wait_on ≡ (k.task u).wait_on)
      × ((task_switch_active t k).highest_ready_tracking ≡ k.highest_ready_tracking)
unfolding task_switch_active
switch-wait_on t u k = ground arith

rotate-has :
    (u : ℕ) (xs : List ℕ) (q : List ℕ × ℕ)
    → Sched.rotate_ready_queue xs ≡ some q
    → has u xs ≡ true
    → has u q.0 ≡ true
unfolding Sched.rotate_ready_queue
rotate-has u [] q e h = absurd (ground arith)
rotate-has u (x ∷ []) q e h = rw (sym (ap (λ z. z.0) (some-inj e))) h
rotate-has u (x ∷ y ∷ ys) q e h =
    rw (sym (ap (λ z. z.0) (some-inj e))) (ground (arith, has-append u ys (x ∷ [])))

update-has :
    (u p at : ℕ) (g : ℕ → List ℕ) (queue : List ℕ)
    → (has u (g at) ≡ true → has u queue ≡ true)
    → has u (g p) ≡ true
    → has u (update g at queue p) ≡ true
update-has u p at g queue f h = elim (Bool-cases (p == at)) [
  | inl same ↦ rw same (f (rw ((==_iff p at).0 same) at h))
  | inr other ↦ rw other h
]

switch-ready : (t : ℕ) (k : Kernel) → (task_switch_active t k).ready_queues ≡ k.ready_queues
unfolding task_switch_active
switch-ready t k = ground arith

pub rotate-Rotated :
    (k : Kernel)
    → k.ready_queues k.highest_ready_tracking ≢ []
    → Rotated k (Sched.scheduler_rotate k)
unfolding Sched.scheduler_rotate Sched.do_ctx_switch
rotate-Rotated k ne = elim (Bool-cases (ltb 0 k.preempt_count)) [
  | inl off ↦ record {
    state = k;
    switched = false;
    returns = rw off;
    waits = refl;
    wait_on = λ t. refl;
    tracked = refl;
    ready = λ p u h. h;
  }
  | inr on ↦
      let ((queue, next), e) =
        rotate_ready_queue-some (k.ready_queues k.highest_ready_tracking) ne in
      let k' : Kernel = record k {
        ready_queues = update k.ready_queues k.highest_ready_tracking queue;
      } in
      let stay : (p u : ℕ) → has u (k.ready_queues p) ≡ true → has u (k'.ready_queues p) ≡ true =
        (λ p u h.
          update-has u p k.highest_ready_tracking k.ready_queues queue
            (rotate-has u (k.ready_queues k.highest_ready_tracking) (queue, next) e) h) in
      elim (Bool-cases (next == k.active)) [
        | inl same ↦ record {
          state = k';
          switched = false;
          returns = rw (on, e, Sched.scheduler_rotate, same);
          waits = refl;
          wait_on = λ t. refl;
          tracked = refl;
          ready = stay;
        }
        | inr other ↦ record {
          state = task_switch_active next k';
          switched = true;
          returns = rw (on, e, Sched.scheduler_rotate, other);
          waits = (switch-wait_on next 0 k').0;
          wait_on = λ t. (switch-wait_on next t k').1;
          tracked = (switch-wait_on next 0 k').2;
          ready = λ p u h. rw (switch-ready next k') (stay p u h);
        }
      ]
]

-- What `spinlock_unlock` leaves alone, whether or not it runs a deferred switch.
pub record Released (l : ℕ) (s : Sys) (r : Outcome) : Type 0 where
  pub state : Sys
  pub switched : Bool
  pub returns : r ≡ some (state, switched)
  pub mutexes : state.mutex ≡ s.mutex
  pub counts : state.count ≡ s.count
  pub waits : state.kernel.wait_list ≡ s.kernel.wait_list
  pub wait_on : (t : ℕ) → (state.kernel.task t).wait_on ≡ (s.kernel.task t).wait_on
  pub free : state.flag l ≡ false
  pub ready :
      (p u : ℕ)
      → has u (s.kernel.ready_queues p) ≡ true
      → has u (state.kernel.ready_queues p) ≡ true

-- With a preemption count of 1 and a task in the tracked ready queue, `spinlock_unlock` returns or
-- lets another task run. It frees the lock, and changes no mutex, no count and no wait queue, and
-- ready tasks stay ready.
pub spinlock_unlock-Released :
    (l : ℕ) (s : Sys)
    → s.kernel.preempt_count ≡ 1
    → s.kernel.ready_queues s.kernel.highest_ready_tracking ≢ []
    → Released l s (spinlock_unlock l s)
unfolding spinlock_unlock Sched.scheduler_enable_preempt
spinlock_unlock-Released l s e ne = elim (Bool-cases s.kernel.need_resched) [
  | inl due ↦
      let k : Kernel = record (s.kernel) { preempt_count = 0; need_resched = false } in
      let r = rotate-Rotated k ne in
      record {
        state = record s { kernel = r.state; flag = update s.flag l false };
        switched = r.switched;
        returns = rw (e, due, r.returns);
        mutexes = refl;
        counts = refl;
        waits = r.waits;
        wait_on = r.wait_on;
        free = ground (arith, ==_refl l);
        ready = r.ready;
      }
  | inr calm ↦ record {
    state = unlocked_state l s;
    switched = false;
    returns = rw (e, calm);
    mutexes = refl;
    counts = refl;
    waits = refl;
    wait_on = λ t. refl;
    free = ground (arith, ==_refl l);
    ready = λ p u h. h;
  }
]
