-- ===== src/Blk/Complete.antt =====
-- The interrupt of the block device: its loop ends.
use rv_mini_os.Prelude.{
  ℕ, zero, suc, ◌+◌, ◌-◌, ◌%◌, ◌<◌, ◌≡◌, refl, sym, ap, ◌∙◌, true, false, none, some, arith, ◌==◌,
  Bool-cases, update, inl, inr,
}
use rv_mini_os.Sync
use rv_mini_os.Sync.{sem_post}
use rv_mini_os.Blk.{Blk, Driver}
use rv_mini_os.Blk.Requests.{Outcome, on_sys, then_do, complete_next, complete_loop}

-- Both indices are words of 16 bits.
pub record InWords (d : Driver) : Type 0 where
  pub last_lt : d.last_seen_used < 65536
  pub used_lt : d.used_idx < 65536

-- the requests that the device has used and the driver has not seen
abbrev pub unseen : Driver → ℕ
unseen d = (d.used_idx + (65536 - d.last_seen_used)) % 65536

abbrev Seen : (used last : ℕ) → Outcome → Type 0
Seen used last none = Unit
Seen used last (some (b, true)) = Unit
Seen used last (some (b, false)) =
    (b.driver.used_idx ≡ used) × (b.driver.last_seen_used ≡ (last + 1) % 65536)

post-Seen :
    (b : Blk) (o : Sync.Outcome)
    → Seen b.driver.used_idx b.driver.last_seen_used (
        then_do (on_sys b o) (λ b2. some (
          record b2 {
            driver = record (b2.driver) { last_seen_used = (b2.driver.last_seen_used + 1) % 65536 };
          },
          false,
        )))
post-Seen b none = tt
post-Seen b (some (s, true)) = tt
post-Seen b (some (s, false)) = (refl, refl)

complete_next-Seen :
    (completion : ℕ → ℕ) (b : Blk)
    → Seen b.driver.used_idx b.driver.last_seen_used (complete_next completion b)
unfolding complete_next
complete_next-Seen completion b =
    let d = b.driver in
    let dev_ack = d.used_ring (d.last_seen_used % d.num) in
    let r = d.inflight dev_ack.id in
    let b1 = record b { req = update b.req r (record (b.req r) { len = dev_ack.len }) } in
    post-Seen b1 (sem_post (completion r) b1.sys)

same_rest :
    (used last : ℕ) (o : Outcome) (f g : Blk → Outcome)
    → Seen used last o
    → ((b : Blk)
        → b.driver.used_idx ≡ used
        → b.driver.last_seen_used ≡ (last + 1) % 65536
        → f b ≡ g b)
    → then_do o f ≡ then_do o g
same_rest used last none f g h e = refl
same_rest used last (some (b, true)) f g h e = refl
same_rest used last (some (b, false)) f g h e = e b h.0 h.1

complete_loop-stops :
    (completion : ℕ → ℕ) (fuel : ℕ) (b : Blk)
    → (b.driver.last_seen_used == b.driver.used_idx) ≡ true
    → complete_loop (suc fuel) completion b ≡ some (b, false)
unfolding complete_loop
complete_loop-stops completion fuel b e = rw e

complete_loop-next :
    (completion : ℕ → ℕ) (fuel : ℕ) (b : Blk)
    → (b.driver.last_seen_used == b.driver.used_idx) ≡ false
    → complete_loop (suc fuel) completion b
      ≡ then_do (complete_next completion b) (complete_loop fuel completion)
unfolding complete_loop
complete_loop-next completion fuel b e = rw e

-- With both indices in 16 bits, fuel for the requests that are not seen yet is enough for the loop of
-- `virtio_irq_handler`: more fuel gives the same.
pub complete_loop-enough_fuel :
    (completion : ℕ → ℕ) (fuel more : ℕ) (b : Blk)
    → InWords b.driver
    → unseen b.driver < fuel
    → complete_loop (more + fuel) completion b ≡ complete_loop fuel completion b
complete_loop-enough_fuel completion zero more b w h = elim h [ ]
complete_loop-enough_fuel completion (suc fuel) more b w h =
    let shift : more + suc fuel ≡ suc (more + fuel) = omega arith in
    elim (Bool-cases (b.driver.last_seen_used == b.driver.used_idx)) [
      | inl done ↦
          ap (λ n. complete_loop n completion b) shift
          ∙ complete_loop-stops completion (more + fuel) b done
          ∙ sym (complete_loop-stops completion fuel b done)
      | inr due ↦
          ap (λ n. complete_loop n completion b) shift
          ∙ complete_loop-next completion (more + fuel) b due
          ∙ same_rest b.driver.used_idx b.driver.last_seen_used (complete_next completion b)
              (complete_loop (more + fuel) completion) (complete_loop fuel completion)
              (complete_next-Seen completion b)
              (λ b2 u l.
                complete_loop-enough_fuel completion fuel more b2
                  (record { last_lt = omega arith; used_lt = omega arith })
                  (ground (arith, w.last_lt, w.used_lt, h, due, u, l)))
          ∙ sym (complete_loop-next completion fuel b due)
    ]
