-- ===== src/Blk/Release.antt =====
-- A request that is complete gives its descriptors back.
use rv_mini_os.Prelude.{
  ℕ, suc, ◌-◌, ◌%◌, ◌<◌, ◌≡◌, ◌≢◌, refl, sym, ap, ◌∙◌, Bool, true, false, some, List, [], ◌∷◌, ◌++◌,
  arith, ◌==◌, update, has, has-append, Distinct, ==_refl, append_assoc,
}
use rv_mini_os.Task.{WaitList}
use rv_mini_os.Sync.{Sys, sem_post, int_max}
use rv_mini_os.Sync.SemSpec
use rv_mini_os.Sync.SemLaws.{view}
use rv_mini_os.Sync.SemPost.{FirstIsReady, Posted, sem_post_refines}
use rv_mini_os.Sync.Waking.{IsWaitQueue}
use rv_mini_os.Sync.Unlock.{
  Calm, locked_state, unlocked_state, spinlock_lock-Calm, spinlock_unlock-plain,
}
use rv_mini_os.Blk.{Blk, Desc, Driver, clear_loop, push_chain}
use rv_mini_os.Blk.Requests.{Outcome, release_desc_chain}
use rv_mini_os.Blk.Chains.{
  Chain, taken, Links, Links-frame, IsChain, Held, Held-frame, IsRing, Agree, in-ne-out, has-move,
  Distinct-back, Held-split, taken-append,
}

-- a descriptor with its flags cleared
abbrev cleared : ℕ → Driver → Driver
cleared i d = record d { desc = update d.desc i (record (d.desc i) { flags = 0 }) }

clear_loop-next :
    (fuel curr next : ℕ) (d : Driver)
    → (d.desc curr).flags % 2 ≡ 1
    → (d.desc curr).next ≡ next
    → clear_loop (suc fuel) curr d ≡ clear_loop fuel next (cleared curr d)
unfolding clear_loop
clear_loop-next fuel curr next d e f = rw e (ap (λ n. clear_loop fuel n (cleared curr d)) f)

clear_loop-last :
    (fuel curr : ℕ) (d : Driver)
    → (d.desc curr).flags % 2 ≡ 0
    → clear_loop (suc fuel) curr d ≡ (curr, d)
unfolding clear_loop
clear_loop-last fuel curr d e = rw e

module _ (c : Chain) (free : List ℕ) (pre post : List Chain) (d : Driver)
    (w : IsRing d free (pre ++ c ∷ post)) where
  split_held : IsChain d.desc d.inflight c × Held d.desc d.inflight (pre ++ post)
  split_held = Held-split d.desc d.inflight pre post c w.held

  regroup :
      free ++ taken (pre ++ c ∷ post) ≡ (free ++ taken pre) ++ c.head ∷ c.body ∷ c.last ∷ taken post
  regroup =
      rw (taken-append pre (c ∷ post))
        (sym (append_assoc free (taken pre) (c.head ∷ c.body ∷ c.last ∷ taken post)))

  regroup' : free ++ taken (pre ++ post) ≡ (free ++ taken pre) ++ taken post
  regroup' = rw (taken-append pre post) (sym (append_assoc free (taken pre) (taken post)))

  back-Distinct : Distinct (c.head ∷ c.body ∷ c.last ∷ (free ++ taken (pre ++ post)))
  back-Distinct = rw regroup' (
      Distinct-back c.head c.body c.last (free ++ taken pre) (taken post)
        (rw regroup at w.distinct))

  back-inside :
      (x : ℕ) → has x (c.head ∷ c.body ∷ c.last ∷ (free ++ taken (pre ++ post))) ≡ true → x < d.num
  back-inside x h =
      w.inside x (
        rw (regroup, has-move c.head c.body c.last (free ++ taken pre) (taken post) x, ← regroup')
          h)

  ends_differ :
      ((c.head == c.body) ≡ false) × ((c.head == c.last) ≡ false) × ((c.body == c.last) ≡ false)
  ends_differ = (
    ground (arith, back-Distinct.0),
    ground (arith, back-Distinct.0),
    ground (arith, back-Distinct.1.0),
  )

  abbrev freed_driver : Driver
  freed_driver = cleared c.body (cleared c.head d)

  -- With fuel for three rounds the loop clears the chain, and stops at its last descriptor.
  clear_loop_lem : (fuel : ℕ) → clear_loop (suc (suc (suc fuel))) c.head d ≡ (c.last, freed_driver)
  clear_loop_lem fuel =
      let h = split_held.0 in
      let flags2 : ((cleared c.head d).desc c.body).flags % 2 ≡ 1 =
        ground (arith, ends_differ, h.body_goes_on) in
      let next2 : ((cleared c.head d).desc c.body).next ≡ c.last =
        ground (arith, ends_differ, h.body_next) in
      let flags3 : (freed_driver.desc c.last).flags % 2 ≡ 0 =
        ground (arith, ends_differ, h.last_ends) in
      let last_round : clear_loop (suc fuel) c.last freed_driver ≡ (c.last, freed_driver) =
        clear_loop-last fuel c.last freed_driver flags3 in
      let two_rounds : clear_loop (suc (suc fuel)) c.body (cleared c.head d)
          ≡ (c.last, freed_driver) =
        clear_loop-next (suc fuel) c.body c.last (cleared c.head d) flags2 next2 ∙ last_round in
      clear_loop-next (suc (suc fuel)) c.head c.body d h.head_goes_on h.head_next ∙ two_rounds

  room : (n : ℕ) × (d.num ≡ suc (suc (suc n)))
  room = (
    d.num - 3,
    ground (
      arith,
      back-inside c.head (ground (arith, ==_refl c.head)),
      back-inside c.body (ground (arith, ==_refl c.body)),
      back-inside c.last (ground (arith, ==_refl c.last)),
      ends_differ,
    ),
  )

  clear_loop-num : clear_loop d.num c.head d ≡ (c.last, freed_driver)
  clear_loop-num = ap (λ n. clear_loop n c.head d) room.1 ∙ clear_loop_lem room.0

  out_of_rest :
      (has c.head (free ++ taken (pre ++ post)) ≡ false)
      × (has c.body (free ++ taken (pre ++ post)) ≡ false)
      × (has c.last (free ++ taken (pre ++ post)) ≡ false)
  out_of_rest =
      (ground (arith, back-Distinct.0), ground (arith, back-Distinct.1.0), back-Distinct.1.1.0)

  freed_Agree :
      (xs : List ℕ)
      → ((x : ℕ) → has x xs ≡ true → has x (free ++ taken (pre ++ post)) ≡ true)
      → Agree d.desc (push_chain c.head c.last freed_driver).desc xs
  unfolding push_chain
  freed_Agree xs within x i = rw (
    in-ne-out x c.last _ (within x i) out_of_rest.2,
    in-ne-out x c.body _ (within x i) out_of_rest.1,
    in-ne-out x c.head _ (within x i) out_of_rest.0,
  )

  abbrev freed_desc : ℕ → Desc
  freed_desc = (push_chain c.head c.last freed_driver).desc

  freed_nexts :
      ((freed_desc c.head).next ≡ c.body)
      × ((freed_desc c.body).next ≡ c.last)
      × ((freed_desc c.last).next ≡ d.free_head_idx)
  unfolding push_chain
  freed_nexts = (
    ground (arith, ends_differ, split_held.0.head_next),
    ground (arith, ends_differ, split_held.0.body_next),
    ground (arith, ==_refl c.last),
  )

  freed-Links : Links freed_desc c.head (c.head ∷ c.body ∷ c.last ∷ free)
  freed-Links =
      let behind =
        Links-frame d.desc freed_desc d.free_head_idx free
          (freed_Agree free (λ x i. ground (arith, has-append x free (taken (pre ++ post)), i)))
          w.links in
      (refl, (freed_nexts.0, (freed_nexts.1, rw freed_nexts.2 behind)))

  freed-IsRing :
      IsRing (push_chain c.head c.last freed_driver) (c.head ∷ c.body ∷ c.last ∷ free) (pre ++ post)
  unfolding push_chain
  freed-IsRing = record {
    links = freed-Links;
    held =
        Held-frame d.desc (push_chain c.head c.last freed_driver).desc d.inflight d.inflight
          (pre ++ post)
          (freed_Agree (taken (pre ++ post))
            (λ x i. ground (arith, has-append x free (taken (pre ++ post)), i)))
          (λ x i. refl) split_held.1;
    distinct = back-Distinct;
    inside = back-inside;
  }

-- What `release_desc_chain` leaves: the slot is given as by `sem_post`, whose lock is free again.
pub record GivenBack (free_slots : ℕ) (c : Chain) (free : List ℕ) (busy : List Chain) (b : Blk)
    (r : Outcome) : Type 0 where
  pub state : Blk
  pub switched : Bool
  pub returns : r ≡ some (state, switched)
  pub ring : IsRing state.driver (c.head ∷ c.body ∷ c.last ∷ free) busy
  pub slots : view free_slots state.sys ≡ SemSpec.post (view free_slots b.sys)
  pub unlocked : state.sys.flag free_slots ≡ false
  pub woken : FirstIsReady free_slots b.sys state.sys

-- For a task that holds no spinlock, with no switch due, the driver's lock and that of `free_slots`
-- free, a task in the tracked ready queue, a well-formed wait queue of `free_slots` and a count of
-- `free_slots` below INT_MAX: the release of a chain that is in flight returns or lets another task run. Its three descriptors are again the
-- first ones of the free list, the other chains stay as they are, and the slot goes to the first
-- task that waits for one, which is then in its ready queue, or is counted as free.
pub release_desc_chain-GivenBack :
    (vq_lock free_slots : ℕ) (c : Chain) (free : List ℕ) (pre post : List Chain) (b : Blk)
    → Calm vq_lock b.sys
    → b.sys.flag free_slots ≡ false
    → b.sys.kernel.ready_queues b.sys.kernel.highest_ready_tracking ≢ []
    → IsWaitQueue b.sys.kernel (WaitList.wq free_slots)
    → b.sys.count free_slots < int_max
    → IsRing b.driver free (pre ++ c ∷ post)
    → GivenBack free_slots c free (pre ++ post) b (release_desc_chain vq_lock free_slots c.head b)
unfolding release_desc_chain
release_desc_chain-GivenBack vq_lock free_slots c free pre post b calm open_lock ready queue below
      w =
    let s1 : Sys = unlocked_state vq_lock (locked_state vq_lock b.sys) in
    let post_ends : Posted free_slots s1 (sem_post free_slots s1) =
      sem_post_refines free_slots s1
        (record { outside = refl; no_resched = calm.no_resched; free = ground (arith, open_lock) })
        ready (record { here = queue.here; once = queue.once }) below in
    let posted = post_ends.ends in
    record {
      state = record b {
        driver = push_chain c.head c.last (freed_driver c free pre post b.driver w);
        sys = posted.state;
      };
      switched = posted.switched;
      returns = rw (
        clear_loop-num c free pre post b.driver w,
        release_desc_chain,
        spinlock_lock-Calm vq_lock b.sys calm,
        spinlock_unlock-plain vq_lock (locked_state vq_lock b.sys) refl calm.no_resched,
        posted.returns,
      );
      ring = freed-IsRing c free pre post b.driver w;
      slots = posted.view_is;
      unlocked = posted.free;
      woken = post_ends.woken;
    }
