-- ===== src/Blk/Requests.antt =====
-- The requests to the block device, and its interrupt: the calls of
-- src/kernel/drivers/blk/virtio_blk.c that take locks and wait.
use rv_mini_os.Prelude.{
  ℕ, zero, suc, ◌+◌, ◌%◌, ◌^◌, Bool, true, false, Option, none, some, ◌==◌, if◌then◌else◌, update,
}
use rv_mini_os.Sync
use rv_mini_os.Sync.{
  Sys, sem_init, sem_wait, sem_post, spinlock_init, spinlock_lock, spinlock_unlock,
}
use rv_mini_os.Blk.{Blk, fill_chain, clear_loop, push_chain}

-- A state, and whether another task runs now; or a fault.
abbrev pub Outcome : Type 0
Outcome = Option (Blk × Bool)

abbrev pub on_sys : Blk → Sync.Outcome → Outcome
on_sys b none = none
on_sys b (some (s, switched)) = some (record b { sys = s }, switched)

abbrev pub then_do : Outcome → (Blk → Outcome) → Outcome
then_do none f = none
then_do (some (b, true)) f = some (b, true)
then_do (some (b, false)) f = f b

abbrev pub on_locked : Blk → Option Sys → (Blk → Outcome) → Outcome
on_locked b none f = none
on_locked b (some s) f = f (record b { sys = s })

unfoldable pub submit_req : (vq_lock r buffer size : ℕ) → Blk → Outcome
submit_req vq_lock r buffer size b = on_locked b (spinlock_lock vq_lock b.sys) (λ b1.
    let b2 = record b1 {
      driver = fill_chain r (b1.req r).type buffer size b1.driver;
      req = update b1.req r (record (b1.req r) { head = b1.driver.free_head_idx });
    } in
    on_sys b2 (spinlock_unlock vq_lock b2.sys))

unfoldable pub release_desc_chain : (vq_lock free_slots head : ℕ) → Blk → Outcome
release_desc_chain vq_lock free_slots head b =
    let (status, d) = clear_loop b.driver.num head b.driver in
    on_locked (record b { driver = d }) (spinlock_lock vq_lock b.sys)
      (λ b1.
        let b2 = record b1 { driver = push_chain head status b1.driver } in
        then_do (on_sys b2 (spinlock_unlock vq_lock b2.sys))
          (λ b3. on_sys b3 (sem_post free_slots b3.sys)))

-- `completion r` is the address of the semaphore of request `r`. One round of the handler.
unfoldable pub complete_next : (completion : ℕ → ℕ) → Blk → Outcome
complete_next completion b =
    let d = b.driver in
    let dev_ack = d.used_ring (d.last_seen_used % d.num) in
    let r = d.inflight dev_ack.id in
    let b1 = record b { req = update b.req r (record (b.req r) { len = dev_ack.len }) } in
    let seen = λ (b2 : Blk). record b2 {
      driver = record b2.driver { last_seen_used = (b2.driver.last_seen_used + 1) % 2 ^ 16 };
    } in
    then_do (on_sys b1 (sem_post (completion r) b1.sys)) (λ b2. some (seen b2, false))

-- the loop of `virtio_irq_handler` on fuel
unfoldable pub complete_loop : (fuel : ℕ) (completion : ℕ → ℕ) → Blk → Outcome
complete_loop zero completion b = none
complete_loop (suc fuel) completion b =
    let rest = then_do (complete_next completion b) (complete_loop fuel completion) in
    if b.driver.last_seen_used == b.driver.used_idx then some (b, false) else rest

-- The index is a word of 16 bits, so that no more rounds are due.
unfoldable pub virtio_irq_handler : (completion : ℕ → ℕ) → Blk → Outcome
virtio_irq_handler completion b =
    if b.driver.irq_status % 2 == 1
    then complete_loop (suc (2 ^ 16)) completion b
    else some (b, false)

-- The last part of `virtio_blk_request`, behind the completion of the device; `none` is a panic.
unfoldable pub finish_req : (vq_lock free_slots r : ℕ) → Blk → Outcome
finish_req vq_lock free_slots r b =
    then_do (release_desc_chain vq_lock free_slots (b.req r).head b) (λ b1.
      if (b1.req r).status == 1
      then none
      else if (b1.req r).status == 2
      then none
      else some (b1, false))

-- its first part, with a slot in hand: the request, and the wait for the device
unfoldable pub start_req : (vq_lock completion r type sector buffer size : ℕ) → Blk → Outcome
start_req vq_lock completion r type sector buffer size b =
    let b1 = record b {
      req = update b.req r (record (b.req r) { type = type; sector = sector });
      sys = sem_init completion 0 b.sys;
    } in
    then_do (submit_req vq_lock r buffer size b1) (λ b2.
      let b3 = record b2 { driver = record b2.driver { notified = b2.driver.notified + 1 } } in
      on_sys b3 (sem_wait completion b3.sys))

-- The result is `len` of the request.
unfoldable pub virtio_blk_request :
    (vq_lock free_slots completion r type sector buffer size : ℕ) → Blk → Outcome
virtio_blk_request vq_lock free_slots completion r type sector buffer size b =
    then_do (on_sys b (sem_wait free_slots b.sys)) (λ b1.
      then_do (start_req vq_lock completion r type sector buffer size b1)
        (finish_req vq_lock free_slots r))
