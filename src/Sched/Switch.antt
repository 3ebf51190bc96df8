-- ===== src/Sched/Switch.antt =====
-- Giving up the processor: `switch_out_active` and the operations that end in it.
use rv_mini_os.Prelude.{
  ℕ, ◌<◌, ◌≡◌, ◌≢◌, refl, true, some, [], arith, if◌then◌else◌, ◌==◌, ap, ==_refl,
}
use rv_mini_os.Task.{Kernel, TaskState, idle, priority_count, task_switch_active, demoted, Task}
use rv_mini_os.Sched
use rv_mini_os.Sched.Highest.{Tracks, Best, refresh-Best}

-- The tracked priority is right, and the idle task is ready: then there is a task to switch to.
pub record CanSwitch (k : Kernel) : Type 0 where
  pub tracks : Tracks k
  pub in_range : k.highest_ready_tracking < priority_count
  pub idle_ready : k.ready_queues idle ≢ []

-- Where `switch_out_active` ends: the first task of the best queue of `k` runs.
pub record Switched (k : Kernel) (r : Sched.Run) : Type 0 where
  pub to : ℕ
  pub state : Kernel
  pub returns : r ≡ some (state, true)
  pub active : state.active ≡ to
  pub runs : (state.task to).state ≡ TaskState.running
  pub best : Best k state.highest_ready_tracking to
  pub queues : state.ready_queues ≡ k.ready_queues
  pub waits : state.wait_list ≡ k.wait_list
  pub sleepers : state.sleeping_head ≡ k.sleeping_head
  pub others :
      (u : ℕ)
      → u ≢ to
      → state.task u ≡ (
          if u == k.active
          then record (k.task u) { state = demoted (k.task u).state }
          else k.task u)
  pub kept :
      (u : ℕ)
      → ((state.task u).wake_up_time ≡ (k.task u).wake_up_time)
        × ((state.task u).priority ≡ (k.task u).priority)
        × ((state.task u).wait_on ≡ (k.task u).wait_on)
  pub can_switch : CanSwitch state

refresh-task : (k : Kernel) → (Sched.refresh_highest_prio k).task ≡ k.task
unfolding Sched.refresh_highest_prio
refresh-task k = ground arith

refresh-rest :
    (k : Kernel)
    → ((Sched.refresh_highest_prio k).wait_list ≡ k.wait_list)
      × ((Sched.refresh_highest_prio k).sleeping_head ≡ k.sleeping_head)
      × ((Sched.refresh_highest_prio k).active ≡ k.active)
unfolding Sched.refresh_highest_prio
refresh-rest k = ground arith

refresh-queues : (k : Kernel) → (Sched.refresh_highest_prio k).ready_queues ≡ k.ready_queues
unfolding Sched.refresh_highest_prio
refresh-queues k = ground arith

-- If every queue above the tracked priority is empty and the idle task is ready,
-- `switch_out_active` finds a task, and switches to the first one of the best queue that is not
-- empty. The queues stay as they are, and the tracked priority is right again.
pub switch_out_active-Switched : (k : Kernel) → CanSwitch k → Switched k (Sched.switch_out_active k)
unfolding Sched.switch_out_active Sched.do_ctx_switch task_switch_active
switch_out_active-Switched k c =
    let (t, b) = refresh-Best k c.tracks c.in_range c.idle_ready in
    let k' = Sched.refresh_highest_prio k in
    let same : k'.ready_queues ≡ k.ready_queues = refresh-queues k in
    record {
      to = t;
      state = (Sched.do_ctx_switch t k').0;
      returns = rw (b.first.1, Sched.switch_out_active);
      active = refl;
      runs = ground (arith, ==_refl t);
      best = record {
        first = (b.first.0, rw same at b.first.1);
        above = λ q h. rw same at (b.above q h);
        in_range = b.in_range;
      };
      queues = same;
      waits = (refresh-rest k).0;
      sleepers = (refresh-rest k).1;
      others = λ u ne. others t u ne;
      kept = λ u. kept t u;
      can_switch = record {
        tracks = b.above;
        in_range = b.in_range;
        idle_ready = λ e. c.idle_ready (rw same at e);
      };
    }
  where
    others :
        (t u : ℕ)
        → u ≢ t
        → (Sched.do_ctx_switch t (Sched.refresh_highest_prio k)).0.task u ≡ (
            if u == k.active
            then record (k.task u) { state = demoted (k.task u).state }
            else k.task u)
    others t u ne =
        ground (arith, refresh-task k, refresh-rest k, ap (λ (f : ℕ → Task). f u) (refresh-task k))

    kept :
        (t u : ℕ)
        → let s = (Sched.do_ctx_switch t (Sched.refresh_highest_prio k)).0 in
          ((s.task u).wake_up_time ≡ (k.task u).wake_up_time)
          × ((s.task u).priority ≡ (k.task u).priority)
          × ((s.task u).wait_on ≡ (k.task u).wait_on)
    kept t u = ground (arith, ap (λ (f : ℕ → Task). f u) (refresh-task k))
