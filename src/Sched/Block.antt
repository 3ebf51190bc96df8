-- ===== src/Sched/Block.antt =====
-- `scheduler_block_on` and `scheduler_sleep`: the active task leaves its ready queue for the wait
-- queue or the sleeping list, and another task runs.
use rv_mini_os.Prelude.{
  ℕ, ◌≡◌, ◌≢◌, true, false, none, List, [], ◌∷◌, ◌++◌, arith, if◌then◌else◌, has, ◌==◌, ap, ==_refl,
  sym,
}
use rv_mini_os.Task.{
  Kernel, WaitList, TaskState, idle, task_sleep, task_block, ready_queue_remove, wq_enqueue,
  without, same_list,
}
use rv_mini_os.Sched
use rv_mini_os.Sched.Highest.{Best}
use rv_mini_os.Sched.Switch.{CanSwitch, Switched, switch_out_active-Switched}

-- A task stands in no queue but that of its priority.
abbrev pub Placed : Kernel → Type 0
Placed k = (p t : ℕ) → has t (k.ready_queues p) ≡ true → (k.task t).priority ≡ p

pub has-without :
    (t u : ℕ) (xs : List ℕ) → has u (without t xs) ≡ (if u == t then false else has u xs)
has-without t u [] = ground arith
has-without t u (x ∷ xs) = ground (arith, has-without t u xs)

without-nil : (t : ℕ) (xs : List ℕ) → xs ≡ [] → without t xs ≡ []
without-nil t xs e = rw e

-- What both operations do before they switch: the queues of `k` without `t`.
pub record Removed (k k' : Kernel) (t : ℕ) : Type 0 where
  pub queues :
      (p : ℕ)
      → k'.ready_queues p
        ≡ (if p == (k.task t).priority then without t (k.ready_queues p) else k.ready_queues p)
  pub tracked : k'.highest_ready_tracking ≡ k.highest_ready_tracking
  pub active : k'.active ≡ k.active

pub Removed-CanSwitch :
    {k k' : Kernel} {t : ℕ}
    → Removed k k' t
    → (k.task t).priority ≢ idle
    → CanSwitch k
    → CanSwitch k'
Removed-CanSwitch {k} {k'} {t} r ne c = record {
  tracks =
      λ p h. ground (arith, r.queues p, r.tracked, c.tracks p, without-nil t (k.ready_queues p));
  in_range = ground (arith, r.tracked, c.in_range);
  idle_ready = λ e. c.idle_ready (ground (arith, r.queues idle, e));
}

-- The best task of the remaining queues is another one.
pub Removed-ne : {k k' : Kernel} {t p u : ℕ} → Removed k k' t → Placed k → Best k' p u → u ≢ t
Removed-ne {k} {k'} {t} {p} {u} r placed b e =
    ground (arith, r.queues p, b.first.1, has-without t u (k.ready_queues p), placed p t, ==_refl u)

block-Removed : (k : Kernel) (t : ℕ) (w : WaitList) → Removed k (Sched.move_to_wq t w k) t
unfolding Sched.move_to_wq wq_enqueue task_block ready_queue_remove
block-Removed k t w = record {
  queues = λ p. ground arith;
  tracked = ground arith;
  active = ground arith;
}

pub sleep-Removed :
    (k : Kernel) (t secs : ℕ)
    → Removed k (Sched.insert_sleep t (task_sleep t secs (ready_queue_remove t k))) t
unfolding Sched.insert_sleep task_sleep ready_queue_remove
sleep-Removed k t secs = record {
  queues = λ p. ground arith;
  tracked = ground arith;
  active = ground arith;
}

pub same_list_refl : (w : WaitList) → same_list w w ≡ true
same_list_refl (WaitList.wq a) = ==_refl a
same_list_refl (WaitList.zombie_wq a) = ==_refl a
same_list_refl (WaitList.zombies a) = ==_refl a

-- the tail of the wait queue, and the state of the task, before the switch
move_to_wq-queued :
    (k : Kernel) (t : ℕ) (w : WaitList)
    → (k.task t).wait_on ≡ none
    → ((Sched.move_to_wq t w k).wait_list w ≡ k.wait_list w ++ t ∷ [])
      × (((Sched.move_to_wq t w k).task t).state ≡ TaskState.blocked)
unfolding Sched.move_to_wq wq_enqueue task_block ready_queue_remove
move_to_wq-queued k t w free =
    (ground (arith, same_list_refl w, ==_refl t), ground (arith, ==_refl t))

-- Where a blocked task `t` of `k` ends up.
pub record Blocked (k : Kernel) (t : ℕ) (w : WaitList) (r : Sched.Run) : Type 0 where
  pub switched : Switched (Sched.move_to_wq t w k) r
  pub other : switched.to ≢ t
  pub state : (switched.state.task t).state ≡ TaskState.blocked
  pub queued : switched.state.wait_list w ≡ k.wait_list w ++ t ∷ []
  pub not_ready : has t (switched.state.ready_queues (k.task t).priority) ≡ false

-- If the tracked priority is right, the idle task is ready and each ready task stands in the queue
-- of its priority alone, then `scheduler_block_on`, run by a task that is not the idle one and that
-- is in no wait queue, puts it at the end of the wait queue, blocked and no more ready, and
-- switches to the best other task.
pub scheduler_block_on-Blocked :
    (k : Kernel) (w : WaitList)
    → CanSwitch k
    → Placed k
    → (k.task k.active).priority ≢ idle
    → (k.task k.active).wait_on ≡ none
    → Blocked k k.active w (Sched.scheduler_block_on w k)
unfolding Sched.scheduler_block_on
scheduler_block_on-Blocked k w c placed ne free = record {
  switched = s;
  other = other;
  state = ground (arith, s.others k.active (λ e. other (sym e)), queued, active-move_to_wq);
  queued = ground (arith, ap (λ (f : WaitList → List ℕ). f w) s.waits, queued);
  not_ready = ground (
    arith,
    ap (λ (f : ℕ → List ℕ). f (k.task k.active).priority) s.queues,
    removed.queues (k.task k.active).priority,
    has-without k.active k.active (k.ready_queues (k.task k.active).priority),
    ==_refl k.active,
    ==_refl (k.task k.active).priority,
  );
}
  where
    k1 : Kernel
    k1 = Sched.move_to_wq k.active w k

    removed : Removed k k1 k.active
    removed = block-Removed k k.active w

    s : Switched k1 (Sched.switch_out_active k1)
    s = switch_out_active-Switched k1 (Removed-CanSwitch removed ne c)

    other : s.to ≢ k.active
    other = Removed-ne removed placed s.best

    queued :
        (k1.wait_list w ≡ k.wait_list w ++ k.active ∷ [])
        × ((k1.task k.active).state ≡ TaskState.blocked)
    queued = move_to_wq-queued k k.active w free

    active-move_to_wq : k1.active ≡ k.active
    active-move_to_wq = removed.active
