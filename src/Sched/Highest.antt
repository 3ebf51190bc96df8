-- ===== src/Sched/Highest.antt =====
-- `highest_ready_tracking`: no ready task outranks it, and a switch goes to the first task of the
-- best queue that is not empty.
use rv_mini_os.Prelude.{
  ℕ, zero, suc, ◌+◌, ◌-◌, ◌<◌, ◌≡◌, ◌≢◌, refl, List, [], ◌∷◌, arith, ltb, ◌==◌, ap, Bool-cases,
  ==_iff, ◌⊎◌, inl, inr,
}
use rv_mini_os.Task.{
  Kernel, idle, priority_count, priority_higher, task_wake, task_switch_active,
  remove_from_blocking_queues, wq_remove, wq_enqueue, without,
}
use rv_mini_os.Sched

-- Every queue of a priority above the tracked one is empty.
abbrev pub Tracks : Kernel → Type 0
Tracks k = (p : ℕ) → p < k.highest_ready_tracking → k.ready_queues p ≡ []

-- the two fields that `Tracks` reads
abbrev SameQueues : Kernel → Kernel → Type 0
SameQueues k l =
    (k.ready_queues ≡ l.ready_queues) × (k.highest_ready_tracking ≡ l.highest_ready_tracking)

wq_remove-SameQueues : (t : ℕ) (k : Kernel) → SameQueues (wq_remove t k) k
unfolding wq_remove
wq_remove-SameQueues t k = ground arith

task_wake-SameQueues : (t : ℕ) (k : Kernel) → SameQueues (task_wake t k) k
unfolding task_wake remove_from_blocking_queues wq_remove
task_wake-SameQueues t k = ground arith

wq_enqueue-SameQueues : (w : _) (t : ℕ) (k : Kernel) → SameQueues (wq_enqueue w t k) k
unfolding wq_enqueue
wq_enqueue-SameQueues w t k = ground arith

check_and_preempt-SameQueues : (t : ℕ) (k : Kernel) → SameQueues (Sched.check_and_preempt t k).0 k
unfolding Sched.check_and_preempt Sched.do_ctx_switch task_switch_active
check_and_preempt-SameQueues t k = ground arith

enqueue-Tracks :
    (t : ℕ) (k : Kernel)
    → Tracks k
    → Tracks (Sched.update_highest t (Sched.ready_queue_enqueue t k))
unfolding Sched.update_highest Sched.ready_queue_enqueue priority_higher
enqueue-Tracks t k tr p h = ground (arith, tr p)

update-Tracks :
    (t : ℕ) (k : Kernel)
    → Tracks k
    → Tracks (Sched.ready_queue_enqueue t (Sched.update_highest t k))
unfolding Sched.update_highest Sched.ready_queue_enqueue priority_higher
update-Tracks t k tr p h = ground (arith, tr p)

Tracks-same : (k l : Kernel) → SameQueues l k → Tracks k → Tracks l
Tracks-same k l e tr p h = ground (arith, tr p, ap (λ (f : ℕ → List ℕ). f p) e.0)

-- If every queue above the tracked priority is empty, so it is after `scheduler_admit`.
pub admit-Tracks : (t : ℕ) (k : Kernel) → Tracks k → Tracks (Sched.scheduler_admit t k).0
unfolding Sched.scheduler_admit
admit-Tracks t k tr =
    let k' = Sched.update_highest t (Sched.ready_queue_enqueue t k) in
    Tracks-same k' (Sched.check_and_preempt t k').0 (check_and_preempt-SameQueues t k')
      (enqueue-Tracks t k tr)

-- If every queue above the tracked priority is empty, so it is after `scheduler_ready_task`.
pub ready_task-Tracks : (t : ℕ) (k : Kernel) → Tracks k → Tracks (Sched.scheduler_ready_task t k).0
unfolding Sched.scheduler_ready_task
ready_task-Tracks t k tr =
    let k1 = task_wake t k in
    let k' = Sched.ready_queue_enqueue t (Sched.update_highest t k1) in
    Tracks-same k' (Sched.check_and_preempt t k').0 (check_and_preempt-SameQueues t k')
      (update-Tracks t k1 (Tracks-same k k1 (task_wake-SameQueues t k) tr))

wake_up_sleeping-Tracks :
    (now t : ℕ) (k : Kernel) → Tracks k → Tracks (Sched.wake_up_sleeping now t k).0
unfolding Sched.wake_up_sleeping
wake_up_sleeping-Tracks now t k tr = elim (Bool-cases (ltb now (k.task t).wake_up_time)) [
  | inl e ↦ rw e tr
  | inr e ↦ rw e (ready_task-Tracks t (record k { sleeping_head = without t k.sleeping_head }) tr)
]

wake_all_sleeping-Tracks :
    (now : ℕ) (ts : List ℕ) (k : Kernel) → Tracks k → Tracks (Sched.wake_all_sleeping now ts k).0
unfolding Sched.wake_all_sleeping
wake_all_sleeping-Tracks now [] k tr = tr
wake_all_sleeping-Tracks now (t ∷ ts) k tr =
    let k' = (Sched.wake_up_sleeping now t k).0 in
    let tr' : Tracks k' = wake_up_sleeping-Tracks now t k tr in
    elim (Bool-cases (Sched.wake_up_sleeping now t k).1) [
      | inl e ↦ rw e tr'
      | inr e ↦ rw e (wake_all_sleeping-Tracks now ts k' tr')
    ]

-- the first task of the best queue that is not empty
pub record Best (k : Kernel) (p t : ℕ) : Type 0 where
  pub first : (ts : List ℕ) × (k.ready_queues p ≡ t ∷ ts)
  pub above : (q : ℕ) → q < p → k.ready_queues q ≡ []
  pub in_range : p < priority_count

pub List-cases : (xs : List ℕ) → (xs ≡ []) ⊎ ((y : ℕ) × (ys : List ℕ) × (xs ≡ y ∷ ys))
List-cases [] = inl refl
List-cases (x ∷ xs) = inr (x, xs, refl)

-- The queues from `p` on are scanned for the first that is not empty.
scan_lem :
    (rounds p : ℕ) (k : Kernel)
    → p + rounds ≡ priority_count
    → ((q : ℕ) → q < p → k.ready_queues q ≡ [])
    → k.ready_queues idle ≢ []
    → (t : ℕ) × Best k (Sched.scan rounds p k) t
unfolding Sched.scan
scan_lem zero p k e low last = absurd (last (low idle (omega arith)))
scan_lem (suc rounds) p k e low last = elim (List-cases (k.ready_queues p)) [
  | inl vacant ↦
      rw (vacant, Sched.scan)
        (scan_lem rounds (p + 1) k (omega arith)
          (λ q h. elim (Bool-cases (q == p)) [
            | inl same ↦ rw ((==_iff q p).0 same) vacant
            | inr other ↦ low q (ground arith)
          ])
          last)
  | inr (t, ts, found) ↦
      rw (found, Sched.scan)
        (t, record { first = (ts, found); above = low; in_range = le_of_nonempty })
]
  where
    le_of_nonempty : p < priority_count
    le_of_nonempty = omega arith

-- If every queue above the tracked priority is empty and the idle task is ready,
-- `refresh_highest_prio` makes the tracked priority that of the best queue that is not empty.
pub refresh-Best :
    (k : Kernel)
    → Tracks k
    → k.highest_ready_tracking < priority_count
    → k.ready_queues idle ≢ []
    → (t : ℕ) × Best
        (Sched.refresh_highest_prio k)
        (Sched.refresh_highest_prio k).highest_ready_tracking
        t
unfolding Sched.refresh_highest_prio
refresh-Best k track h i = elim (List-cases (k.ready_queues k.highest_ready_tracking)) [
  | inl vacant ↦
      let lo = k.highest_ready_tracking + 1 in
      let (t, b) =
        scan_lem (priority_count - lo) lo k (omega arith)
          (λ q l. elim (Bool-cases (q == k.highest_ready_tracking)) [
            | inl same ↦ rw ((==_iff q k.highest_ready_tracking).0 same) vacant
            | inr other ↦ track q (ground arith)
          ])
          i in
      rw (vacant, Sched.refresh_highest_prio)
        (t, record { first = b.first; above = b.above; in_range = b.in_range })
  | inr (t, ts, found) ↦
      rw (found, Sched.refresh_highest_prio)
        (t, record { first = (ts, found); above = track; in_range = h })
]
