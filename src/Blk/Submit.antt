-- ===== src/Blk/Submit.antt =====
-- A request that is submitted gets three free descriptors.
use rv_mini_os.Prelude.{
  ℕ, ◌+◌, ◌%◌, ◌^◌, ◌≡◌, refl, sym, Bool, true, false, some, List, ◌∷◌, ◌++◌, arith, ◌==◌,
  if◌then◌else◌, update, has, has-append, ==_refl,
}
use rv_mini_os.Sync.Unlock.{
  Calm, locked_state, unlocked_state, spinlock_lock-Calm, spinlock_unlock-plain,
}
use rv_mini_os.Blk.{Blk, Desc, Driver, Target, fill_chain}
use rv_mini_os.Blk.Requests.{submit_req}
use rv_mini_os.Blk.Chains.{
  Chain, taken, Links, Links-frame, IsChain, Held-frame, IsRing, Agree, in-ne-out, has-move,
  Distinct-move,
}

-- What the descriptors of a new request say.
pub record Describes (d : Driver) (c : Chain) (buffer size : ℕ) (reads : Bool) : Type 0 where
  pub buffer_is : (d.desc c.body).addr ≡ Target.buffer_at buffer
  pub size_is : (d.desc c.body).len ≡ size
  pub device_writes : (d.desc c.body).flags ≡ (if reads then 3 else 1)

module _ (a b c r type buffer size : ℕ) (rest : List ℕ) (busy : List Chain) (d : Driver) where
  abbrev pub new_chain : Chain
  new_chain = record { head = a; body = b; last = c; req = r }

  abbrev filled_desc : ℕ → Desc
  filled_desc =
      update
        (update (update d.desc a (record { addr = Target.hdr_of r; len = 16; flags = 1; next = b }))
          b
          (record {
            addr = Target.buffer_at buffer;
            len = size;
            flags = if type == 0 then 3 else 1;
            next = c;
          }))
        c (record { addr = Target.status_of r; len = 1; flags = 2; next = 0 })

  abbrev filled : Driver
  filled = record d {
    desc = filled_desc;
    avail_ring = update d.avail_ring (d.avail_idx % d.num) a;
    free_head_idx = (d.desc c).next;
    inflight = update d.inflight a r;
    avail_idx = (d.avail_idx + 1) % 2 ^ 16;
  }

  fill_chain_lem :
      Links d.desc d.free_head_idx (a ∷ b ∷ c ∷ rest) → fill_chain r type buffer size d ≡ filled
  unfolding fill_chain
  fill_chain_lem l = rw (l.0, l.1.0, l.1.1.0)

  module _ (w : IsRing d (a ∷ b ∷ c ∷ rest) busy) where
    head_ne : ((a == b) ≡ false) × ((a == c) ≡ false) × ((b == c) ≡ false)
    head_ne =
        (ground (arith, w.distinct.0), ground (arith, w.distinct.0), ground (arith, w.distinct.1.0))

    filled-IsChain : IsChain filled_desc filled.inflight new_chain
    filled-IsChain = record {
      head_goes_on = ground (arith, head_ne, ==_refl a);
      body_goes_on = ground (arith, head_ne, ==_refl b);
      last_ends = ground (arith, head_ne, ==_refl c);
      head_next = ground (arith, head_ne, ==_refl a);
      body_next = ground (arith, head_ne, ==_refl b);
      hdr = ground (arith, head_ne, ==_refl a);
      status = ground (arith, head_ne, ==_refl c);
      known = ground (arith, ==_refl a);
    }

    out_of_tail :
        (has a (rest ++ taken busy) ≡ false)
        × (has b (rest ++ taken busy) ≡ false)
        × (has c (rest ++ taken busy) ≡ false)
    out_of_tail = (ground (arith, w.distinct.0), ground (arith, w.distinct.1.0), w.distinct.1.1.0)

    filled-Agree :
        (xs : List ℕ)
        → ((x : ℕ) → has x xs ≡ true → has x (rest ++ taken busy) ≡ true)
        → Agree d.desc filled_desc xs
    filled-Agree xs within x i = rw (
      in-ne-out x c _ (within x i) out_of_tail.2,
      in-ne-out x b _ (within x i) out_of_tail.1,
      in-ne-out x a _ (within x i) out_of_tail.0,
    )

    -- With three free descriptors at the head of the list, the chain of the request is made of
    -- them, and of them alone.
    pub fill_chain-IsRing :
        IsRing (fill_chain r type buffer size d) rest (new_chain ∷ busy)
        × Describes (fill_chain r type buffer size d) new_chain buffer size (type == 0)
    fill_chain-IsRing = rw (fill_chain_lem w.links) (
      record {
        links =
            Links-frame d.desc filled_desc (d.desc c).next rest
              (filled-Agree rest (λ x i. ground (arith, has-append x rest (taken busy), i)))
              w.links.1.1.1;
        held = (
          filled-IsChain,
          Held-frame d.desc filled_desc d.inflight filled.inflight busy
              (filled-Agree (taken busy) (λ x i. ground (arith, has-append x rest (taken busy), i)))
              (λ x i.
                rw (
                  in-ne-out x a _ (ground (arith, has-append x rest (taken busy), i))
                    out_of_tail.0))
              w.held,
        );
        distinct = Distinct-move a b c rest (taken busy) w.distinct;
        inside = λ x h. w.inside x (rw (sym (has-move a b c rest (taken busy) x)) h);
      },
      record {
        buffer_is = ground (arith, head_ne, ==_refl b);
        size_is = ground (arith, head_ne, ==_refl b);
        device_writes = ground (arith, head_ne, ==_refl b);
      },
    )

-- How `submit_req` of request `r` leaves the state, with the request's chain: the lock is free again.
pub record Submitted (vq_lock r buffer size : ℕ) (chain : Chain) (rest : List ℕ) (busy : List Chain)
    (b b' : Blk) : Type 0 where
  pub ring : IsRing b'.driver rest (chain ∷ busy)
  pub describes : Describes b'.driver chain buffer size ((b.req r).type == 0)
  pub offered : b'.driver.avail_ring (b.driver.avail_idx % b.driver.num) ≡ chain.head
  pub offers : b'.driver.avail_idx ≡ (b.driver.avail_idx + 1) % 2 ^ 16
  pub remembers : (b'.req r).head ≡ chain.head
  pub others : b'.sys ≡ unlocked_state vq_lock (locked_state vq_lock b.sys)

-- For a task that holds no spinlock, with no switch due, the driver's lock free, and three free
-- descriptors or more: `submit_req` returns and frees the lock. The first three free descriptors
-- are then the chain of the request, from its header to its status, and stand in no other chain and
-- no more in the free list, which keeps the others in their order. The second one describes the
-- buffer, which the device may write exactly if the type is IN, and the first one is offered to the
-- device and kept as the head of the request.
pub submit_req-Submitted :
    (vq_lock r buffer size i j k : ℕ) (rest : List ℕ) (busy : List Chain) (b : Blk)
    → Calm vq_lock b.sys
    → IsRing b.driver (i ∷ j ∷ k ∷ rest) busy
    → (b' : Blk) × (submit_req vq_lock r buffer size b ≡ some (b', false))
      × Submitted vq_lock r buffer size
          (record { head = i; body = j; last = k; req = r })
          rest
          busy
          b
          b'
unfolding submit_req fill_chain
submit_req-Submitted vq_lock r buffer size i j k rest busy b calm w =
    let d = fill_chain r (b.req r).type buffer size b.driver in
    let filled_ring = fill_chain-IsRing i j k r (b.req r).type buffer size rest busy b.driver w in
    (
      record {
        driver = d;
        req = update b.req r (record (b.req r) { head = b.driver.free_head_idx });
        sys = unlocked_state vq_lock (locked_state vq_lock b.sys);
      },
      rw (
        spinlock_lock-Calm vq_lock b.sys calm,
        submit_req,
        spinlock_unlock-plain vq_lock (locked_state vq_lock b.sys) refl calm.no_resched,
      ),
      record {
        ring = filled_ring.0;
        describes = filled_ring.1;
        offered = rw (==_refl (b.driver.avail_idx % b.driver.num)) w.links.0;
        offers = refl;
        remembers = rw (==_refl r) w.links.0;
        others = refl;
      },
    )
