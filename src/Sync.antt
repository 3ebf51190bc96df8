-- ===== src/Sync.antt =====
-- src/kernel/core/sync: spinlocks, mutexes and semaphores on top of the scheduler, and
-- `scheduler_block_on_locked`. A lock or semaphore is named by its address; its wait queue is the
-- list `WaitList.wq` of that address. There is one hart: a spin on a taken lock never ends, which is
-- a fault here (`none`), like those of the scheduler. Semaphores are only made with counts that are
-- not negative, so a count is a number; it is an `int`, whose overflow is a fault, `none`, as well.
pub mod Unlock
pub mod Blocking
pub mod Waking
pub mod MutexSpec
pub mod MutexLaws
pub mod MutexUnlock
pub mod SemSpec
pub mod SemLaws
pub mod SemPost
pub mod Quiet
mod Tests
use rv_mini_os.Prelude.{
  ℕ, zero, suc, ◌+◌, ◌-◌, Bool, true, false, ◌||◌, ◌&&◌, not, Option, none, some, List, [], ◌∷◌,
  ◌==◌, leb, ◌^◌, if◌then◌else◌, update,
}
use rv_mini_os.Err.{Result, ok, err, ebusy, eagain}
use rv_mini_os.Task.{Kernel, WaitList, wq_remove}
use rv_mini_os.Sched

pub record Mutex : Type 0 where
  pub locked : Bool
  pub owner : ℕ

pub record Sys : Type 0 where
  pub kernel : Kernel
  pub mutex : ℕ → Mutex
  pub count : ℕ → ℕ
  pub flag : ℕ → Bool

-- A state, and whether another task runs now; or a fault.
abbrev pub Outcome : Type 0
Outcome = Option (Sys × Bool)

abbrev pub then_do : Outcome → (Sys → Outcome) → Outcome
then_do none f = none
then_do (some (s, true)) f = some (s, true)
then_do (some (s, false)) f = f s

-- A step of the scheduler on the whole state.
abbrev pub lift : Sys → Sched.Run → Outcome
lift s none = none
lift s (some (k, switched)) = some (record s { kernel = k }, switched)

abbrev pub set_mutex : ℕ → Mutex → Sys → Sys
set_mutex m v s = record s { mutex = update s.mutex m v }

unfoldable pub spinlock_init : ℕ → Sys → Sys
spinlock_init l s = record s { flag = update s.flag l false }

unfoldable pub spinlock_lock : ℕ → Sys → Option Sys
spinlock_lock l s =
    let s1 = record s { kernel = Sched.scheduler_disable_preempt s.kernel } in
    if s1.flag l then none else some (record s1 { flag = update s1.flag l true })

unfoldable pub spinlock_unlock : ℕ → Sys → Outcome
spinlock_unlock l s =
    let s1 = record s { flag = update s.flag l false } in
    lift s1 (Sched.scheduler_enable_preempt s1.kernel)

unfoldable pub scheduler_block_on_locked : ℕ → Sys → Outcome
scheduler_block_on_locked l s =
    let s1 = record s { kernel = Sched.move_to_wq s.kernel.active (WaitList.wq l) s.kernel } in
    then_do (spinlock_unlock l s1) (λ s2. lift s2 (Sched.switch_out_active s2.kernel))

-- `wq_pop_head`: NULL if the queue is empty
unfoldable pub wq_pop_head : WaitList → Kernel → ℕ × Kernel
wq_pop_head w k = elim (k.wait_list w) [ [] ↦ (0, k) | t ∷ ts ↦ (t, wq_remove t k) ]

abbrev pub is_nil : List ℕ → Bool
is_nil [] = true
is_nil (x ∷ xs) = false

unfoldable pub wq_is_empty : WaitList → Kernel → Bool
wq_is_empty w k = is_nil (k.wait_list w)

unfoldable pub mutex_init : ℕ → Sys → Sys
mutex_init m s = set_mutex m (record { locked = false; owner = 0 }) (spinlock_init m s)

unfoldable pub mutex_trylock_unlocked : ℕ → Sys → Result ℕ × Sys
mutex_trylock_unlocked m s =
    if (s.mutex m).locked
    then (err ebusy, s)
    else (ok 0, set_mutex m (record { locked = true; owner = s.kernel.active }) s)

-- The result is given beside the state, as the caller reads it when it runs again.
unfoldable pub mutex_trylock : ℕ → Sys → Option (Result ℕ × (Sys × Bool))
mutex_trylock m s = elim (spinlock_lock m s) [
  | none ↦ none
  | some s1 ↦
      let (res, s2) = mutex_trylock_unlocked m s1 in
      elim (spinlock_unlock m s2) [ none ↦ none | some r ↦ some (res, r) ]
]

-- the part of `mutex_lock` behind `mutex_trylock_unlocked`
abbrev pub mutex_lock_rest : ℕ → Result ℕ × Sys → Outcome
mutex_lock_rest m (ok n, s) = spinlock_unlock m s
mutex_lock_rest m (err e, s) = scheduler_block_on_locked m s

unfoldable pub mutex_lock : ℕ → Sys → Outcome
mutex_lock m s = elim (spinlock_lock m s) [
  | none ↦ none
  | some s1 ↦ mutex_lock_rest m (mutex_trylock_unlocked m s1)
]

-- The part of `mutex_unlock` between its calls of the spinlock.
unfoldable pub hand_over : ℕ → Sys → Outcome
hand_over m s =
    if not (s.mutex m).locked || not ((s.mutex m).owner == s.kernel.active)
    then some (s, false)
    else if wq_is_empty (WaitList.wq m) s.kernel
    then some (set_mutex m (record { locked = false; owner = 0 }) s, false)
    else (let (t, k) = wq_pop_head (WaitList.wq m) s.kernel in
        let s1 = set_mutex m (record (s.mutex m) { owner = t }) s in
        lift s1 (some (Sched.scheduler_ready_task t k)))

unfoldable pub mutex_unlock : ℕ → Sys → Outcome
mutex_unlock m s = elim (spinlock_lock m s) [
  | none ↦ none
  | some s1 ↦ then_do (hand_over m s1) (spinlock_unlock m)
]

unfoldable pub sem_init : ℕ → ℕ → Sys → Sys
sem_init a val s = let s1 = spinlock_init a s in record s1 { count = update s1.count a val }

unfoldable pub sem_try_take_unlocked : ℕ → Sys → Result ℕ × Sys
sem_try_take_unlocked a s =
    if s.count a == 0
    then (err eagain, s)
    else (ok 0, record s { count = update s.count a (s.count a - 1) })

unfoldable pub sem_try_take : ℕ → Sys → Option (Result ℕ × (Sys × Bool))
sem_try_take a s = elim (spinlock_lock a s) [
  | none ↦ none
  | some s1 ↦
      let (res, s2) = sem_try_take_unlocked a s1 in
      elim (spinlock_unlock a s2) [ none ↦ none | some r ↦ some (res, r) ]
]

abbrev pub sem_wait_rest : ℕ → Result ℕ × Sys → Outcome
sem_wait_rest a (ok n, s) = spinlock_unlock a s
sem_wait_rest a (err e, s) = scheduler_block_on_locked a s

unfoldable pub sem_wait : ℕ → Sys → Outcome
sem_wait a s = elim (spinlock_lock a s) [
  | none ↦ none
  | some s1 ↦ sem_wait_rest a (sem_try_take_unlocked a s1)
]

-- `INT_MAX`
abbrev pub int_max : ℕ
int_max = 2 ^ 31 - 1

-- The part of `sem_post` between its calls of the spinlock.
unfoldable pub give : ℕ → Sys → Outcome
give a s =
    if wq_is_empty (WaitList.wq a) s.kernel
    then (if leb int_max (s.count a)
        then none
        else some (record s { count = update s.count a (s.count a + 1) }, false))
    else (let (t, k) = wq_pop_head (WaitList.wq a) s.kernel in
        lift s (some (Sched.scheduler_ready_task t k)))

unfoldable pub sem_post : ℕ → Sys → Outcome
sem_post a s = elim (spinlock_lock a s) [
  | none ↦ none
  | some s1 ↦ then_do (give a s1) (spinlock_unlock a)
]
