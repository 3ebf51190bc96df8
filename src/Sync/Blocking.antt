-- ===== src/Sync/Blocking.antt =====
-- `scheduler_block_on_locked` inside a spinlock is `scheduler_block_on` outside it.
use rv_mini_os.Prelude.{ℕ, ◌≡◌, refl, sym, ◌∙◌, ap, Bool, false, none, some, arith, update, ==_refl}
use rv_mini_os.Task.{Kernel, WaitList, task_block, ready_queue_remove, wq_enqueue}
use rv_mini_os.Sched
use rv_mini_os.Sync.{Sys, lift, then_do, scheduler_block_on_locked}
use rv_mini_os.Sync.Unlock.{Calm, locked_state, spinlock_unlock-plain}

abbrev preempt : ℕ → Kernel → Kernel
preempt n k = record k { preempt_count = n }

move-preempt :
    (t : ℕ) (w : WaitList) (n : ℕ) (k : Kernel)
    → preempt k.preempt_count (Sched.move_to_wq t w (preempt n k)) ≡ Sched.move_to_wq t w k
unfolding Sched.move_to_wq wq_enqueue task_block ready_queue_remove
move-preempt t w n k = ground arith

move-fields :
    (t : ℕ) (w : WaitList) (k : Kernel)
    → ((Sched.move_to_wq t w k).preempt_count ≡ k.preempt_count)
      × ((Sched.move_to_wq t w k).need_resched ≡ k.need_resched)
unfolding Sched.move_to_wq wq_enqueue task_block ready_queue_remove
move-fields t w k = ground arith

lift-kernel : (s : Sys) (x : Kernel) (r : Sched.Run) → lift (record s { kernel = x }) r ≡ lift s r
lift-kernel s x none = refl
lift-kernel s x (some (k, switched)) = refl

-- The task that blocks under a lock frees it, and then blocks as `scheduler_block_on` does.
pub block_on_locked_lem :
    (l : ℕ) (s : Sys)
    → Calm l s
    → (g : ℕ → Bool) × (g l ≡ false)
      × (scheduler_block_on_locked l (locked_state l s)
          ≡ lift (record s { flag = g }) (Sched.scheduler_block_on (WaitList.wq l) s.kernel))
unfolding scheduler_block_on_locked Sched.scheduler_block_on
block_on_locked_lem l s c =
    let s1 : Sys = record (locked_state l s) {
      kernel = Sched.move_to_wq s.kernel.active (WaitList.wq l) (preempt 1 s.kernel);
    } in
    let f = move-fields s.kernel.active (WaitList.wq l) (preempt 1 s.kernel) in
    let u = spinlock_unlock-plain l s1 f.0 (f.1 ∙ c.no_resched) in
    let moved : preempt 0 s1.kernel ≡ Sched.move_to_wq s.kernel.active (WaitList.wq l) s.kernel =
      ap (λ n. preempt n s1.kernel) (sym c.outside)
      ∙ move-preempt s.kernel.active (WaitList.wq l) 1 s.kernel in
    (
      update s1.flag l false,
      ground (arith, ==_refl l),
      ap (λ r. then_do r (λ s2. lift s2 (Sched.switch_out_active s2.kernel))) u
          ∙ lift-kernel (record s { flag = update s1.flag l false }) (preempt 0 s1.kernel)
              (Sched.switch_out_active (preempt 0 s1.kernel))
          ∙ ap (λ k. lift (record s { flag = update s1.flag l false }) (Sched.switch_out_active k))
              moved,
    )
