-- ===== src/Sync/Waking.antt =====
-- Waking the first waiter of a lock or semaphore inside its spinlock.
use rv_mini_os.Prelude.{
  ℕ, ◌≡◌, ◌≢◌, refl, sym, ◌∙◌, ap, Bool, true, false, none, some, List, [], ◌∷◌, ◌++◌, arith, has,
  has-append, ==_refl, ◌⊎◌, inl, inr, Distinct,
}
use mathlib.Core.Path.{subst}
use rv_mini_os.Task.{
  Kernel, Task, WaitList, priority_higher, task_wake, wq_remove, remove_from_blocking_queues,
  without,
}
use rv_mini_os.Sched
use rv_mini_os.Sched.Block.{same_list_refl}
use rv_mini_os.Sync.{wq_pop_head}

-- The nodes of a wait queue are those that say so, each once.
pub record IsWaitQueue (k : Kernel) (w : WaitList) : Type 0 where
  pub here : (t : ℕ) → has t (k.wait_list w) ≡ true → (k.task t).wait_on ≡ some w
  pub once : Distinct (k.wait_list w)

without_absent : (t : ℕ) (xs : List ℕ) → has t xs ≡ false → without t xs ≡ xs
without_absent t [] h = refl
without_absent t (x ∷ xs) h = ground (arith, without_absent t xs)

-- The first waiter is taken out of the queue, and the others stay.
pub pop-cons :
    (k : Kernel) (w : WaitList) (t : ℕ) (ts : List ℕ)
    → IsWaitQueue k w
    → k.wait_list w ≡ t ∷ ts
    → (wq_pop_head w k ≡ (t, wq_remove t k))
      × ((wq_remove t k).wait_list w ≡ ts)
      × (((wq_remove t k).task t).wait_on ≡ none)
      × ((u : ℕ) → u ≢ t → ((wq_remove t k).task u).wait_on ≡ (k.task u).wait_on)
      × ((wq_remove t k).preempt_count ≡ k.preempt_count)
      × ((wq_remove t k).ready_queues ≡ k.ready_queues)
      × ((wq_remove t k).highest_ready_tracking ≡ k.highest_ready_tracking)
unfolding wq_pop_head wq_remove
pop-cons k w t ts q e =
    let at : (k.task t).wait_on ≡ some w = q.here t (ground (arith, e, ==_refl t)) in
    let once : has t ts ≡ false = (subst Distinct e q.once).0 in
    (
      rw (e, wq_pop_head),
      rw (at, wq_remove, same_list_refl w, e, ==_refl t) (without_absent t ts once),
      rw (at, wq_remove, ==_refl t),
      (λ u ne. rw (at, wq_remove) (ground arith)),
      rw (at, wq_remove),
      rw (at, wq_remove),
      rw (at, wq_remove),
    )

enqueue-fields :
    (t : ℕ) (k : Kernel)
    → let k' = Sched.ready_queue_enqueue t (Sched.update_highest t k) in
      (k'.task ≡ k.task) × (k'.wait_list ≡ k.wait_list) × (k'.preempt_count ≡ k.preempt_count)
unfolding Sched.ready_queue_enqueue Sched.update_highest
enqueue-fields t k = ground arith

enqueue-ready :
    (t : ℕ) (k : Kernel)
    → has t
        ((Sched.ready_queue_enqueue t (Sched.update_highest t k)).ready_queues (k.task t).priority)
      ≡ true
unfolding Sched.ready_queue_enqueue Sched.update_highest
enqueue-ready t k = ground (
  arith,
  has-append t (k.ready_queues (k.task t).priority) (t ∷ []),
  ==_refl t,
  ==_refl (k.task t).priority,
)

task_wake-priority : (t : ℕ) (k : Kernel) → ((task_wake t k).task t).priority ≡ (k.task t).priority
unfolding task_wake remove_from_blocking_queues wq_remove
task_wake-priority t k = ground arith

append-ne-nil : (xs : List ℕ) (t : ℕ) → xs ++ t ∷ [] ≢ []
append-ne-nil [] t e = cc
append-ne-nil (x ∷ xs) t e = cc

ne-nil_of_has : (t : ℕ) (xs : List ℕ) → has t xs ≡ true → xs ≢ []
ne-nil_of_has t [] h e = cc
ne-nil_of_has t (x ∷ xs) h e = cc

-- The tracked queue holds a task again.
enqueue-some :
    (t : ℕ) (k : Kernel)
    → k.ready_queues k.highest_ready_tracking ≢ []
    → let k' = Sched.ready_queue_enqueue t (Sched.update_highest t k) in
      k'.ready_queues k'.highest_ready_tracking ≢ []
unfolding Sched.ready_queue_enqueue Sched.update_highest priority_higher
enqueue-some t k h = ground (
  arith,
  append-ne-nil (k.ready_queues (k.task t).priority) t,
  ne-nil_of_has t (k.ready_queues (k.task t).priority),
  ==_refl (k.task t).priority,
)

task_wake-fields :
    (t u : ℕ) (k : Kernel)
    → (k.task t).wait_on ≡ none
    → ((task_wake t k).wait_list ≡ k.wait_list)
      × (((task_wake t k).task u).wait_on ≡ (k.task u).wait_on)
      × ((task_wake t k).preempt_count ≡ k.preempt_count)
      × ((task_wake t k).ready_queues ≡ k.ready_queues)
      × ((task_wake t k).highest_ready_tracking ≡ k.highest_ready_tracking)
unfolding task_wake remove_from_blocking_queues wq_remove
task_wake-fields t u k e = ground arith

-- With preemption disabled, the switch to the woken task is put off.
check-deferred :
    (t : ℕ) (k : Kernel)
    → k.preempt_count ≡ 1
    → (Sched.check_and_preempt t k ≡ (k, false))
      ⊎ (Sched.check_and_preempt t k ≡ (record k { need_resched = true }, false))
unfolding Sched.check_and_preempt
check-deferred t k e = ground arith

-- Where `scheduler_ready_task` ends inside a spinlock.
pub record Readied (k : Kernel) (t : ℕ) (r : Kernel × Bool) : Type 0 where
  pub stays : r.1 ≡ false
  pub waits : r.0.wait_list ≡ k.wait_list
  pub wait_on : (u : ℕ) → (r.0.task u).wait_on ≡ (k.task u).wait_on
  pub preempt : r.0.preempt_count ≡ 1
  pub tracked : r.0.ready_queues r.0.highest_ready_tracking ≢ []
  pub ready : has t (r.0.ready_queues (k.task t).priority) ≡ true

pub ready_task-Readied :
    (t : ℕ) (k : Kernel)
    → k.preempt_count ≡ 1
    → (k.task t).wait_on ≡ none
    → k.ready_queues k.highest_ready_tracking ≢ []
    → Readied k t (Sched.scheduler_ready_task t k)
unfolding Sched.scheduler_ready_task
ready_task-Readied t k inside off ne = elim (check-deferred t k2 (f.2 ∙ w.2 ∙ inside)) [
  | inl same ↦ rw same done
  | inr later ↦ rw later (record {
    stays = refl;
    waits = done.waits;
    wait_on = done.wait_on;
    preempt = done.preempt;
    tracked = done.tracked;
    ready = done.ready;
  })
]
  where
    k1 : Kernel
    k1 = task_wake t k

    k2 : Kernel
    k2 = Sched.ready_queue_enqueue t (Sched.update_highest t k1)

    f : (k2.task ≡ k1.task) × (k2.wait_list ≡ k1.wait_list) × (k2.preempt_count ≡ k1.preempt_count)
    f = enqueue-fields t k1

    w :
        (k1.wait_list ≡ k.wait_list)
        × ((k1.task t).wait_on ≡ (k.task t).wait_on)
        × (k1.preempt_count ≡ k.preempt_count)
        × (k1.ready_queues ≡ k.ready_queues)
        × (k1.highest_ready_tracking ≡ k.highest_ready_tracking)
    w = task_wake-fields t t k off

    done : Readied k t (k2, false)
    done = record {
      stays = refl;
      waits = f.1 ∙ w.0;
      wait_on = λ u. ap (λ (g : ℕ → Task). (g u).wait_on) f.0 ∙ (task_wake-fields t u k off).1;
      preempt = f.2 ∙ w.2 ∙ inside;
      tracked = enqueue-some t k1 (λ e. ne (
          ap (λ (g : ℕ → List ℕ). g k.highest_ready_tracking) (sym w.3)
          ∙ ap k1.ready_queues (sym w.4)
          ∙ e));
      ready =
          subst (λ p. has t (k2.ready_queues p) ≡ true) (task_wake-priority t k)
            (enqueue-ready t k1);
    }
