-- ===== src/Sync/SemPost.antt =====
-- `sem_post` and `sem_try_take` refine the specification of a semaphore.
use rv_mini_os.Prelude.{
  ℕ, ◌+◌, ◌<◌, ◌≡◌, ◌≢◌, refl, sym, ◌∙◌, ap, true, false, none, has, some, List, [], ◌∷◌, arith,
  if◌then◌else◌, ◌==◌, update, ==_refl, Bool-cases, inl, inr,
}
use mathlib.Core.Path.{subst}
use rv_mini_os.Err.{ok, err, eagain}
use rv_mini_os.Task.{Kernel, WaitList, wq_remove}
use rv_mini_os.Sched
use rv_mini_os.Sched.Highest.{List-cases}
use rv_mini_os.Sync.{
  Sys, Outcome, spinlock_unlock, sem_try_take_unlocked, sem_try_take, sem_post, give, wq_is_empty,
  int_max,
}
use rv_mini_os.Sync.Unlock.{
  Calm, locked_state, unlocked_state, spinlock_lock-Calm, spinlock_unlock-plain, Released,
  spinlock_unlock-Released,
}
use rv_mini_os.Sync.Waking.{IsWaitQueue, pop-cons, Readied, ready_task-Readied}
use rv_mini_os.Sync.Quiet.{fits}
use rv_mini_os.Sync.SemSpec
use rv_mini_os.Sync.SemSpec.{View}
use rv_mini_os.Sync.SemLaws.{view, Ends, taken, take-some, take-none}

-- For a task that holds no spinlock, with no switch due and the spinlock of the semaphore free:
-- `sem_try_take` takes a unit if there is one, and else fails with EAGAIN and changes neither count
-- nor waiters; it never waits, and frees the spinlock.
pub sem_try_take_lem :
    (a : ℕ) (s : Sys)
    → Calm a s
    → (s' : Sys) × (sem_try_take a s
        ≡ some (if s.count a == 0 then err eagain else ok 0, (s', false)))
      × (view a s' ≡ (if s.count a == 0 then view a s else SemSpec.wait s.kernel.active (view a s)))
      × (s'.flag a ≡ false)
unfolding sem_try_take sem_try_take_unlocked
sem_try_take_lem a s c = elim (Bool-cases (s.count a == 0)) [
  | inl out ↦ (
    unlocked_state a (locked_state a s),
    rw (
      spinlock_lock-Calm a s c,
      sem_try_take,
      (take-none a (locked_state a s) out).0,
      spinlock_unlock-plain a (locked_state a s) refl c.no_resched,
      out,
    ),
    rw out,
    ground (arith, ==_refl a),
  )
  | inr some_left ↦ (
    unlocked_state a (taken a (locked_state a s)),
    rw (
      spinlock_lock-Calm a s c,
      sem_try_take,
      (take-some a (locked_state a s) some_left).0,
      spinlock_unlock-plain a (taken a (locked_state a s)) refl c.no_resched,
      some_left,
    ),
    rw some_left (sym ((take-some a s some_left).1 s.kernel.active)),
    ground (arith, ==_refl a),
  )
]

-- If a task waits for the semaphore in `s`, the first one is in the ready queue of its priority in `s'`,
-- and waits nowhere.
abbrev pub FirstIsReady : ℕ → Sys → Sys → Type 0
FirstIsReady a s s' =
    (t : ℕ) (ts : List ℕ)
    → s.kernel.wait_list (WaitList.wq a) ≡ t ∷ ts
    → (has t (s'.kernel.ready_queues (s.kernel.task t).priority) ≡ true)
      × ((s'.kernel.task t).wait_on ≡ none)

record Gives (a : ℕ) (s : Sys) (r : Outcome) : Type 0 where
  state : Sys
  returns : r ≡ some (state, false)
  view_is : view a state ≡ SemSpec.post (view a s)
  inside : state.kernel.preempt_count ≡ 1
  tracked : state.kernel.ready_queues state.kernel.highest_ready_tracking ≢ []
  woken : FirstIsReady a s state

cons-inj : {x y : ℕ} {xs ys : List ℕ} → x ∷ xs ≡ y ∷ ys → x ≡ y
cons-inj e = cc

nil-ne-cons : {x : ℕ} {xs : List ℕ} → [] ≢ x ∷ xs
nil-ne-cons e = cc

wq_remove-priority :
    (t u : ℕ) (k : Kernel) → ((wq_remove t k).task u).priority ≡ (k.task u).priority
unfolding wq_remove
wq_remove-priority t u k = ground arith

give-wakes :
    (a : ℕ) (s : Sys) (t : ℕ) (ts : List ℕ)
    → s.kernel.preempt_count ≡ 1
    → s.kernel.ready_queues s.kernel.highest_ready_tracking ≢ []
    → IsWaitQueue s.kernel (WaitList.wq a)
    → s.kernel.wait_list (WaitList.wq a) ≡ t ∷ ts
    → Gives a s (give a s)
unfolding give SemSpec.post wq_is_empty
give-wakes a s t ts inside tracked q e =
    let p = pop-cons s.kernel (WaitList.wq a) t ts q e in
    let k : Kernel = wq_remove t s.kernel in
    let r : Readied k t (Sched.scheduler_ready_task t k) =
      ready_task-Readied t k (p.4 ∙ inside) p.2 (λ z. tracked (
        ap (λ (g : ℕ → List ℕ). g s.kernel.highest_ready_tracking) (sym p.5)
        ∙ ap k.ready_queues (sym p.6)
        ∙ z)) in
    record {
      state = record s { kernel = (Sched.scheduler_ready_task t k).0 };
      returns = rw (give, wq_is_empty, e, p.0, r.stays);
      view_is = rw (e, r.waits, p.1);
      inside = r.preempt;
      tracked = r.tracked;
      woken = λ u us f.
          let same : t ≡ u = cons-inj (sym e ∙ f) in
          subst
            (λ z.
              (has z ((Sched.scheduler_ready_task t k).0.ready_queues (s.kernel.task z).priority)
                ≡ true)
              × (((Sched.scheduler_ready_task t k).0.task z).wait_on ≡ none))
            same
            (
              subst (λ p. has t ((Sched.scheduler_ready_task t k).0.ready_queues p) ≡ true)
                  (wq_remove-priority t t s.kernel) r.ready,
              r.wait_on t ∙ p.2,
            );
    }

give-frees :
    (a : ℕ) (s : Sys)
    → s.kernel.preempt_count ≡ 1
    → s.kernel.ready_queues s.kernel.highest_ready_tracking ≢ []
    → s.kernel.wait_list (WaitList.wq a) ≡ []
    → s.count a < int_max
    → Gives a s (give a s)
unfolding give SemSpec.post wq_is_empty
give-frees a s inside tracked e below = record {
  state = record s { count = update s.count a (s.count a + 1) };
  returns = rw (give, wq_is_empty, e, fits a s below);
  view_is = rw (e, ==_refl a);
  inside = inside;
  tracked = tracked;
  woken = λ t ts f. absurd (nil-ne-cons (sym e ∙ f));
}

give-Gives :
    (a : ℕ) (s : Sys)
    → s.kernel.preempt_count ≡ 1
    → s.kernel.ready_queues s.kernel.highest_ready_tracking ≢ []
    → IsWaitQueue s.kernel (WaitList.wq a)
    → s.count a < int_max
    → Gives a s (give a s)
give-Gives a s inside tracked q below = elim (List-cases (s.kernel.wait_list (WaitList.wq a))) [
  | inl e ↦ give-frees a s inside tracked e below
  | inr (t, ts, e) ↦ give-wakes a s t ts inside tracked q e
]

-- How `sem_post` ends.
pub record Posted (a : ℕ) (s : Sys) (r : Outcome) : Type 0 where
  pub ends : Ends a (SemSpec.post (view a s)) r
  pub woken : FirstIsReady a s ends.state

-- For a task that holds no spinlock, with no switch due, the spinlock of the semaphore free, a task
-- in the tracked ready queue, a well-formed wait queue and a count below INT_MAX: `sem_post` hands
-- its unit to the first waiter, which is then in the ready queue of its priority and waits nowhere,
-- and adds it to the count if nobody waits. It always returns or lets another task run, and frees
-- the spinlock.
pub sem_post_refines :
    (a : ℕ) (s : Sys)
    → Calm a s
    → s.kernel.ready_queues s.kernel.highest_ready_tracking ≢ []
    → IsWaitQueue s.kernel (WaitList.wq a)
    → s.count a < int_max
    → Posted a s (sem_post a s)
unfolding sem_post
sem_post_refines a s c tracked q below =
    let s1 : Sys = locked_state a s in
    let h : Gives a s1 (give a s1) =
      give-Gives a s1 refl tracked (record { here = q.here; once = q.once }) below in
    let r : Released a h.state (spinlock_unlock a h.state) =
      spinlock_unlock-Released a h.state h.inside h.tracked in
    let kept : view a r.state ≡ view a h.state =
      λ i. record { count = r.counts i a; waiters = r.waits i (WaitList.wq a) } in
    record {
      ends = record {
        state = r.state;
        switched = r.switched;
        returns = rw (spinlock_lock-Calm a s c, sem_post, h.returns) r.returns;
        view_is = kept ∙ h.view_is;
        free = r.free;
      };
      woken = λ t ts e.
          let (there, nowhere) = h.woken t ts e in
          (r.ready (s.kernel.task t).priority t there, r.wait_on t ∙ nowhere);
    }
