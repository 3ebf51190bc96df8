-- ===== src/Sched/Wake.antt =====
-- `scheduler_ready_task`, run by a task of the highest priority: it does not switch away.
use rv_mini_os.Prelude.{
  ℕ, ◌≡◌, refl, true, false, List, [], ◌∷◌, arith, has, ap, ==_refl, ◌∙◌, has-append,
}
use mathlib.Core.Path.{subst}
use rv_mini_os.Task.{
  Kernel, Task, priority_higher, task_wake, remove_from_blocking_queues, wq_remove, without,
}
use rv_mini_os.Sched

-- What a wake-up leaves alone, and what it does to the list of the woken task.
pub record Woken (k k' : Kernel) (t : ℕ) : Type 0 where
  pub active : k'.active ≡ k.active
  pub times : (u : ℕ) → (k'.task u).wake_up_time ≡ (k.task u).wake_up_time
  pub priorities : (u : ℕ) → (k'.task u).priority ≡ (k.task u).priority
  pub asleep : without t k.sleeping_head ≡ k.sleeping_head → k'.sleeping_head ≡ k.sleeping_head
  pub ready : has t (k'.ready_queues (k.task t).priority) ≡ true
  pub stays : (p u : ℕ) → has u (k.ready_queues p) ≡ true → has u (k'.ready_queues p) ≡ true

task_wake-times :
    (t u : ℕ) (k : Kernel)
    → (((task_wake t k).task u).wake_up_time ≡ (k.task u).wake_up_time)
      × (((task_wake t k).task u).priority ≡ (k.task u).priority)
      × ((task_wake t k).active ≡ k.active)
      × ((task_wake t k).ready_queues ≡ k.ready_queues)
unfolding task_wake remove_from_blocking_queues wq_remove
task_wake-times t u k = ground arith

pub without-without : (t : ℕ) (xs : List ℕ) → without t (without t xs) ≡ without t xs
without-without t [] = refl
without-without t (x ∷ xs) = ground (arith, without-without t xs)

task_wake-asleep :
    (t : ℕ) (k : Kernel)
    → without t k.sleeping_head ≡ k.sleeping_head
    → (task_wake t k).sleeping_head ≡ k.sleeping_head
unfolding task_wake remove_from_blocking_queues wq_remove
task_wake-asleep t k gone = ground arith

enqueue-fields :
    (t : ℕ) (k : Kernel)
    → let k' = Sched.ready_queue_enqueue t (Sched.update_highest t k) in
      (k'.task ≡ k.task)
      × (k'.active ≡ k.active)
      × (k'.sleeping_head ≡ k.sleeping_head)
      × (has t (k'.ready_queues (k.task t).priority) ≡ true)
unfolding Sched.ready_queue_enqueue Sched.update_highest
enqueue-fields t k = ground (
  arith,
  has-append t (k.ready_queues (k.task t).priority) (t ∷ []),
  ==_refl t,
  ==_refl (k.task t).priority,
)

enqueue-stays :
    (t p u : ℕ) (k : Kernel)
    → has u (k.ready_queues p) ≡ true
    → has u ((Sched.ready_queue_enqueue t (Sched.update_highest t k)).ready_queues p) ≡ true
unfolding Sched.ready_queue_enqueue Sched.update_highest
enqueue-stays t p u k h = ground (arith, has-append u (k.ready_queues p) (t ∷ []))

-- No task is preferred to one of priority HIGH.
check-stays :
    (t : ℕ) (k : Kernel) → (k.task k.active).priority ≡ 0 → Sched.check_and_preempt t k ≡ (k, false)
unfolding Sched.check_and_preempt priority_higher
check-stays t k e = ground arith

pub ready_task-Woken :
    (t : ℕ) (k : Kernel)
    → (k.task k.active).priority ≡ 0
    → ((Sched.scheduler_ready_task t k).1 ≡ false) × Woken k (Sched.scheduler_ready_task t k).0 t
unfolding Sched.scheduler_ready_task
ready_task-Woken t k high = rw stays (refl, woken)
  where
    k1 : Kernel
    k1 = task_wake t k

    k2 : Kernel
    k2 = Sched.ready_queue_enqueue t (Sched.update_highest t k1)

    f :
        (k2.task ≡ k1.task)
        × (k2.active ≡ k1.active)
        × (k2.sleeping_head ≡ k1.sleeping_head)
        × (has t (k2.ready_queues (k1.task t).priority) ≡ true)
    f = enqueue-fields t k1

    same_active : k2.active ≡ k.active
    same_active = f.1 ∙ (task_wake-times t t k).2

    priorities : (u : ℕ) → (k2.task u).priority ≡ (k.task u).priority
    priorities u = ap (λ (g : ℕ → Task). (g u).priority) f.0 ∙ (task_wake-times t u k).1

    stays : Sched.check_and_preempt t k2 ≡ (k2, false)
    stays =
        check-stays t k2 (ap (λ a. (k2.task a).priority) same_active ∙ priorities k.active ∙ high)

    woken : Woken k k2 t
    woken = record {
      active = same_active;
      times = λ u. ap (λ (g : ℕ → Task). (g u).wake_up_time) f.0 ∙ (task_wake-times t u k).0;
      priorities = priorities;
      asleep = λ gone. f.2 ∙ task_wake-asleep t k gone;
      ready = subst (λ p. has t (k2.ready_queues p) ≡ true) (task_wake-times t t k).1 f.3;
      stays = λ p u h.
          enqueue-stays t p u k1
            (ap (λ (g : ℕ → List ℕ). has u (g p)) (task_wake-times t t k).3 ∙ h);
    }
