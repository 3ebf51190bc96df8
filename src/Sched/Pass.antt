-- ===== src/Sched/Pass.antt =====
-- `scheduler_wake_sleeping`, as the tick daemon runs it: at the highest priority, so that no wake-up
-- switches away in the middle of the list.
use rv_mini_os.Prelude.{
  ℕ, ◌≤◌, ◌≡◌, refl, Bool, true, false, List, [], ◌∷◌, arith, ltb, has, ◌==◌, ap, Bool-cases, inl,
  inr, ==_refl, filter, not, ◌||◌, ◌&&◌, sym, ◌∙◌,
}
use mathlib.Core.Path.{subst}
use rv_mini_os.Task.{Kernel, time_seconds, without}
use rv_mini_os.Sched
use rv_mini_os.Sched.Wake.{Woken, ready_task-Woken, without-without}

-- whether `wake_up_sleeping_cb` leaves a task asleep
abbrev pub sleeps_on : ℕ → Kernel → ℕ → Bool
sleeps_on now k t = ltb now (k.task t).wake_up_time

-- What a pass over `ts` does: the tasks of `ts` that are due are woken, and no other.
record Pass (now : ℕ) (ts : List ℕ) (k k' : Kernel) : Type 0 where
  active : k'.active ≡ k.active
  times : (u : ℕ) → (k'.task u).wake_up_time ≡ (k.task u).wake_up_time
  priorities : (u : ℕ) → (k'.task u).priority ≡ (k.task u).priority
  asleep : k'.sleeping_head ≡ filter (λ x. sleeps_on now k x || not (has x ts)) k.sleeping_head
  ready :
      (t : ℕ)
      → has t ts ≡ true
      → sleeps_on now k t ≡ false
      → has t (k'.ready_queues (k.task t).priority) ≡ true
  stays : (p u : ℕ) → has u (k.ready_queues p) ≡ true → has u (k'.ready_queues p) ≡ true

filter-true : (p : ℕ → Bool) (xs : List ℕ) → ((x : ℕ) → p x ≡ true) → filter p xs ≡ xs
filter-true p [] h = refl
filter-true p (x ∷ xs) h = ground (arith, h x, filter-true p xs h)

filter_ext :
    (p q : ℕ → Bool) (xs : List ℕ)
    → ((x : ℕ) → has x xs ≡ true → p x ≡ q x)
    → filter p xs ≡ filter q xs
filter_ext p q [] h = refl
filter_ext p q (x ∷ xs) h =
    ground (arith, h x, ==_refl x, filter_ext p q xs (λ y i. h y (ground arith)))

filter-without :
    (p q : ℕ → Bool) (t : ℕ) (xs : List ℕ)
    → ((x : ℕ) → q x ≡ (p x && not (x == t)))
    → filter p (without t xs) ≡ filter q xs
filter-without p q t [] h = refl
filter-without p q t (x ∷ xs) h = ground (arith, h x, filter-without p q t xs h)

Pass-nil : (now : ℕ) (k : Kernel) → Pass now [] k k
Pass-nil now k = record {
  active = refl;
  times = λ u. refl;
  priorities = λ u. refl;
  asleep = sym (filter-true (λ x. sleeps_on now k x || true) k.sleeping_head (λ x. ground arith));
  ready = λ t h d. absurd (ground arith);
  stays = λ p u h. h;
}

-- A task that is not due adds nothing to a pass.
Pass-skip :
    (now t : ℕ) (ts : List ℕ) (k k' : Kernel)
    → sleeps_on now k t ≡ true
    → Pass now ts k k'
    → Pass now (t ∷ ts) k k'
Pass-skip now t ts k k' late p = record {
  active = p.active;
  times = p.times;
  priorities = p.priorities;
  asleep =
      p.asleep
      ∙ filter_ext (λ x. sleeps_on now k x || not (has x ts))
          (λ x. sleeps_on now k x || not (has x (t ∷ ts))) k.sleeping_head (λ x h. skip x);
  ready = λ u h d. p.ready u (ground arith) d;
  stays = p.stays;
}
  where
    skip :
        (x : ℕ)
        → (sleeps_on now k x || not (has x ts)) ≡ (sleeps_on now k x || not (has x (t ∷ ts)))
    skip x = ground arith

-- A task that is due is woken at the head of a pass.
Pass-wake :
    (now t : ℕ) (ts : List ℕ) (k k1 k' : Kernel)
    → sleeps_on now k t ≡ false
    → Woken (record k { sleeping_head = without t k.sleeping_head }) k1 t
    → Pass now ts k1 k'
    → Pass now (t ∷ ts) k k'
Pass-wake now t ts k k1 k' due w p = record {
  active = p.active ∙ w.active;
  times = λ u. p.times u ∙ w.times u;
  priorities = λ u. p.priorities u ∙ w.priorities u;
  asleep =
      p.asleep
      ∙ ap (filter (λ x. sleeps_on now k1 x || not (has x ts)))
          (w.asleep (without-without t k.sleeping_head))
      ∙ filter-without (λ x. sleeps_on now k1 x || not (has x ts))
          (λ x. sleeps_on now k x || not (has x (t ∷ ts))) t k.sleeping_head split;
  ready = ready;
  stays = λ q u h. p.stays q u (w.stays q u h);
}
  where
    split :
        (x : ℕ)
        → (sleeps_on now k x || not (has x (t ∷ ts)))
          ≡ ((sleeps_on now k1 x || not (has x ts)) && not (x == t))
    split x = ground (arith, w.times x)

    ready :
        (u : ℕ)
        → has u (t ∷ ts) ≡ true
        → sleeps_on now k u ≡ false
        → has u (k'.ready_queues (k.task u).priority) ≡ true
    ready u h d = elim (Bool-cases (has u ts)) [
      | inl later ↦
          subst (λ q. has u (k'.ready_queues q) ≡ true) (w.priorities u)
            (p.ready u later (ground (arith, w.times u)))
      | inr over ↦ p.stays (k.task u).priority u (ground (arith, w.ready))
    ]

pass_lem :
    (now : ℕ) (ts : List ℕ) (k : Kernel)
    → (k.task k.active).priority ≡ 0
    → ((Sched.wake_all_sleeping now ts k).1 ≡ false)
      × Pass now ts k (Sched.wake_all_sleeping now ts k).0
unfolding Sched.wake_all_sleeping Sched.wake_up_sleeping
pass_lem now [] k high = (refl, Pass-nil now k)
pass_lem now (t ∷ ts) k high = elim (Bool-cases (sleeps_on now k t)) [
  | inl late ↦
      let ih = pass_lem now ts k high in
      rw late (ih.0, Pass-skip now t ts k (Sched.wake_all_sleeping now ts k).0 late ih.1)
  | inr due ↦
      let k0 : Kernel = record k { sleeping_head = without t k.sleeping_head } in
      let k1 : Kernel = (Sched.scheduler_ready_task t k0).0 in
      let w = ready_task-Woken t k0 high in
      let ih =
        pass_lem now ts k1
          (ap (λ a. (k1.task a).priority) w.1.active ∙ w.1.priorities k.active ∙ high) in
      rw (due, w.0)
        (ih.0, Pass-wake now t ts k k1 (Sched.wake_all_sleeping now ts k1).0 due w.1 ih.1)
]

-- Run by a task of priority HIGH, `scheduler_wake_sleeping` does not switch away; it leaves asleep
-- the tasks whose time has not come, in their order, and no other.
pub wake_sleeping-filter :
    (k : Kernel)
    → (k.task k.active).priority ≡ 0
    → let (k', switched) = Sched.scheduler_wake_sleeping k in
      (switched ≡ false)
      × (k'.active ≡ k.active)
      × (k'.sleeping_head ≡ filter (sleeps_on (time_seconds k) k) k.sleeping_head)
unfolding Sched.scheduler_wake_sleeping
wake_sleeping-filter k high =
    let now = time_seconds k in
    let p = pass_lem now k.sleeping_head k high in
    (
      p.0,
      p.1.active,
      p.1.asleep
          ∙ filter_ext (λ x. sleeps_on now k x || not (has x k.sleeping_head)) (sleeps_on now k)
              k.sleeping_head (λ x h. ground arith),
    )

-- Run by a task of priority HIGH, `scheduler_wake_sleeping` puts each sleeping task whose time has
-- come into the ready queue of its priority.
pub wake_sleeping-ready :
    (k : Kernel)
    → (k.task k.active).priority ≡ 0
    → (t : ℕ) → has t k.sleeping_head ≡ true
    → (k.task t).wake_up_time ≤ time_seconds k
    → has t ((Sched.scheduler_wake_sleeping k).0.ready_queues (k.task t).priority) ≡ true
unfolding Sched.scheduler_wake_sleeping
wake_sleeping-ready k high t h due =
    (pass_lem (time_seconds k) k.sleeping_head k high).1.ready t h (ground arith)
