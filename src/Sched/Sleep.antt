-- ===== src/Sched/Sleep.antt =====
-- `scheduler_sleep` and the order of the sleeping list.
use rv_mini_os.Prelude.{
  ℕ, ◌+◌, ◌/◌, ◌%◌, ◌^◌, ◌≤◌, ◌≡◌, ◌≢◌, refl, true, false, List, [], ◌∷◌, arith, if◌then◌else◌, ltb,
  has, ◌==◌, Bool-cases, inl, inr, ==_refl, ◌||◌, sym, ◌∙◌,
}
use mathlib.Core.Path.{subst}
use rv_mini_os.Task.{
  Kernel, Task, TaskState, idle, task_sleep, ready_queue_remove, time_seconds, demoted,
}
use rv_mini_os.Sched
use rv_mini_os.Sched.Switch.{CanSwitch, Switched, switch_out_active-Switched}
use rv_mini_os.Sched.Block.{Placed, Removed, sleep-Removed, Removed-CanSwitch, Removed-ne}

abbrev pub WakesFrom : (ℕ → Task) → ℕ → List ℕ → Type 0
WakesFrom task n [] = Unit
WakesFrom task n (x ∷ xs) = (n ≤ (task x).wake_up_time) × WakesFrom task n xs

-- Who wakes up first stands first.
abbrev pub ByWakeUp : (ℕ → Task) → List ℕ → Type 0
ByWakeUp task [] = Unit
ByWakeUp task (x ∷ xs) = WakesFrom task (task x).wake_up_time xs × ByWakeUp task xs

WakesFrom-le :
    (task : ℕ → Task) (m n : ℕ) (xs : List ℕ) → m ≤ n → WakesFrom task n xs → WakesFrom task m xs
WakesFrom-le task m n [] h w = tt
WakesFrom-le task m n (x ∷ xs) h w = (omega arith, WakesFrom-le task m n xs h w.1)

WakesFrom-insert :
    (task : ℕ → Task) (n t : ℕ) (xs : List ℕ)
    → n ≤ (task t).wake_up_time
    → WakesFrom task n xs
    → WakesFrom task n (Sched.insert_by_time task t xs)
unfolding Sched.insert_by_time
WakesFrom-insert task n t [] h w = (h, tt)
WakesFrom-insert task n t (x ∷ xs) h w =
    elim (Bool-cases (ltb (task t).wake_up_time (task x).wake_up_time)) [
      | inl e ↦ rw e (h, w)
      | inr e ↦ rw e (w.0, WakesFrom-insert task n t xs h w.1)
    ]

insert_by_time-ByWakeUp :
    (task : ℕ → Task) (t : ℕ) (xs : List ℕ)
    → ByWakeUp task xs
    → ByWakeUp task (Sched.insert_by_time task t xs)
unfolding Sched.insert_by_time
insert_by_time-ByWakeUp task t [] b = (tt, tt)
insert_by_time-ByWakeUp task t (x ∷ xs) b =
    elim (Bool-cases (ltb (task t).wake_up_time (task x).wake_up_time)) [
      | inl e ↦ rw e (
        (
          ground arith,
          WakesFrom-le task (task t).wake_up_time (task x).wake_up_time xs (ground arith) b.0,
        ),
        b,
      )
      | inr e ↦ rw e (
        WakesFrom-insert task (task x).wake_up_time t xs (ground arith) b.0,
        insert_by_time-ByWakeUp task t xs b.1,
      )
    ]

-- The order looks at the tasks of the list alone.
WakesFrom-same :
    (f g : ℕ → Task) (n : ℕ) (xs : List ℕ)
    → ((x : ℕ) → has x xs ≡ true → (g x).wake_up_time ≡ (f x).wake_up_time)
    → WakesFrom f n xs
    → WakesFrom g n xs
WakesFrom-same f g n [] same w = tt
WakesFrom-same f g n (x ∷ xs) same w =
    (ground (arith, same x, ==_refl x), WakesFrom-same f g n xs (λ y h. same y (ground arith)) w.1)

pub ByWakeUp-same :
    (f g : ℕ → Task) (xs : List ℕ)
    → ((x : ℕ) → has x xs ≡ true → (g x).wake_up_time ≡ (f x).wake_up_time)
    → ByWakeUp f xs
    → ByWakeUp g xs
ByWakeUp-same f g [] same b = tt
ByWakeUp-same f g (x ∷ xs) same b = (
  subst (λ n. WakesFrom g n xs) (sym (same x (ground (arith, ==_refl x))))
      (WakesFrom-same f g (f x).wake_up_time xs (λ y h. same y (ground arith)) b.0),
  ByWakeUp-same f g xs (λ y h. same y (ground arith)) b.1,
)

has-insert_by_time :
    (task : ℕ → Task) (t u : ℕ) (xs : List ℕ)
    → has u (Sched.insert_by_time task t xs) ≡ ((u == t) || has u xs)
unfolding Sched.insert_by_time
has-insert_by_time task t u [] = refl
has-insert_by_time task t u (x ∷ xs) = ground (arith, has-insert_by_time task t u xs)

-- Where a task `t` of `k` that sleeps for `secs` seconds ends up.
pub record Slept (k : Kernel) (t secs : ℕ) (r : Sched.Run) : Type 0 where
  pub switched : Switched (Sched.insert_sleep t (task_sleep t secs (ready_queue_remove t k))) r
  pub other : switched.to ≢ t
  pub state : (switched.state.task t).state ≡ TaskState.sleeping
  pub wake_up : (switched.state.task t).wake_up_time ≡ (secs + k.ticks / 20) % 2 ^ 32
  pub sleeps : has t switched.state.sleeping_head ≡ true
  pub sorted : ByWakeUp switched.state.task switched.state.sleeping_head

-- the state before the switch
dozing-fields :
    (k : Kernel) (t secs : ℕ)
    → has t k.sleeping_head ≡ false
    → let k1 = Sched.insert_sleep t (task_sleep t secs (ready_queue_remove t k)) in
      (k1.sleeping_head ≡ Sched.insert_by_time k1.task t k.sleeping_head)
      × (k1.task t ≡ record (k.task t) {
        state = TaskState.sleeping;
        wake_up_time = (secs + k.ticks / 20) % 2 ^ 32;
      })
unfolding Sched.insert_sleep task_sleep ready_queue_remove time_seconds
dozing-fields k t secs awake = (rw awake, rw (awake, ==_refl t))

dozing-task :
    (k : Kernel) (t secs x : ℕ)
    → has t k.sleeping_head ≡ false
    → has x k.sleeping_head ≡ true
    → ((Sched.insert_sleep t (task_sleep t secs (ready_queue_remove t k))).task x).wake_up_time
      ≡ (k.task x).wake_up_time
unfolding Sched.insert_sleep task_sleep ready_queue_remove
dozing-task k t secs x awake h = ground arith

module _ (k : Kernel) (secs : ℕ) (c : CanSwitch k) (placed : Placed k) where
  -- If the tracked priority is right, the idle task is ready, each ready task stands in the queue
  -- of its priority alone and the sleeping list is sorted, then `scheduler_sleep`, run by a task
  -- that is not the idle one and not in the sleeping list, puts it there with its wake-up time
  -- modulo 2 ^ 32, keeps the list sorted by wake-up time, and switches to the best other task.
  pub scheduler_sleep-Slept :
      (k.task k.active).priority ≢ idle
      → has k.active k.sleeping_head ≡ false
      → ByWakeUp k.task k.sleeping_head
      → Slept k k.active secs (Sched.scheduler_sleep secs k)
  unfolding Sched.scheduler_sleep
  scheduler_sleep-Slept ne awake sorted = record {
    switched = s;
    other = other;
    state = ground (arith, asleep, f.1);
    wake_up = ground (arith, asleep, f.1);
    sleeps = ground (
      arith,
      s.sleepers,
      f.0,
      has-insert_by_time k1.task k.active k.active k.sleeping_head,
      ==_refl k.active,
    );
    sorted = subst (ByWakeUp s.state.task) (sym (s.sleepers ∙ f.0)) (
        ByWakeUp-same k1.task s.state.task (Sched.insert_by_time k1.task k.active k.sleeping_head)
          (λ x h. time_kept x)
          (insert_by_time-ByWakeUp k1.task k.active k.sleeping_head (
            ByWakeUp-same k.task k1.task k.sleeping_head
              (λ x h. dozing-task k k.active secs x awake h) sorted)));
  }
    where
      k1 : Kernel
      k1 = Sched.insert_sleep k.active (task_sleep k.active secs (ready_queue_remove k.active k))

      f :
          (k1.sleeping_head ≡ Sched.insert_by_time k1.task k.active k.sleeping_head)
          × (k1.task k.active ≡ record (k.task k.active) {
            state = TaskState.sleeping;
            wake_up_time = (secs + k.ticks / 20) % 2 ^ 32;
          })
      f = dozing-fields k k.active secs awake

      removed : Removed k k1 k.active
      removed = sleep-Removed k k.active secs

      s : Switched k1 (Sched.switch_out_active k1)
      s = switch_out_active-Switched k1 (Removed-CanSwitch removed ne c)

      other : s.to ≢ k.active
      other = Removed-ne removed placed s.best

      asleep : s.state.task k.active ≡ (
          if k.active == k1.active
          then record (k1.task k.active) { state = demoted (k1.task k.active).state }
          else k1.task k.active)
      asleep = s.others k.active (λ e. other (sym e))

      time_kept : (x : ℕ) → (s.state.task x).wake_up_time ≡ (k1.task x).wake_up_time
      time_kept x = (s.kept x).0
