-- ===== src/Blk.antt =====
-- The block device's driver, src/kernel/drivers/blk/virtio_blk.c: the table of descriptors with its
-- free list, the rings shared with the device, and the two semaphores of a request, on Sync. A
-- request is named by its address, and the parts of its `struct virtio_blk_req` to which
-- descriptors point by constructors. The PCI registers and the negotiation of features are left
-- out; the used ring, written by the device, is part of the state.
pub mod Requests
pub mod Chains
pub mod Complete
pub mod Setup
pub mod Submit
pub mod Release
pub mod Tests
use rv_mini_os.Prelude.{
  ℕ, zero, suc, ◌+◌, ◌-◌, ◌*◌, ◌/◌, ◌%◌, ◌^◌, Bool, true, false, Option, none, some, ◌==◌, ltb,
  if◌then◌else◌, update,
}
use rv_mini_os.Err.{Result, ok, err, enodev, enomem}
use rv_mini_os.Pages.{Pages, page_alloc}
use rv_mini_os.Sync
use rv_mini_os.Sync.{
  Sys, sem_init, sem_wait, sem_post, spinlock_init, spinlock_lock, spinlock_unlock,
}

-- `VIRTQ_DESC_F_NEXT` and `VIRTQ_DESC_F_WRITE`
abbrev pub desc_f_next : ℕ
desc_f_next = 1

abbrev pub desc_f_write : ℕ
desc_f_write = 2

-- `VIRTIO_MAX_QUEUE_SIZE` and `VIRTIO_REQ_NUM_DESC`
abbrev pub max_queue_size : ℕ
max_queue_size = 16

abbrev pub req_num_desc : ℕ
req_num_desc = 3

-- what a descriptor points to: the header of a request, a buffer, or the status of a request
pub data Target : Type 0 where
  nothing : Target
  hdr_of : ℕ → Target
  buffer_at : ℕ → Target
  status_of : ℕ → Target

pub record Desc : Type 0 where
  pub addr : Target
  pub len : ℕ
  pub flags : ℕ
  pub next : ℕ

pub record Req : Type 0 where
  pub type : ℕ
  pub sector : ℕ
  pub head : ℕ
  pub len : ℕ
  pub status : ℕ

pub record UsedElem : Type 0 where
  pub id : ℕ
  pub len : ℕ

pub record Driver : Type 0 where
  pub num : ℕ
  pub desc : ℕ → Desc
  pub avail_idx : ℕ
  pub avail_ring : ℕ → ℕ
  pub used_idx : ℕ
  pub used_ring : ℕ → UsedElem
  pub free_head_idx : ℕ
  pub inflight : ℕ → ℕ
  pub last_seen_used : ℕ
  pub irq_status : ℕ
  pub notified : ℕ

pub record Blk : Type 0 where
  pub driver : Driver
  pub req : ℕ → Req
  pub sys : Sys

abbrev pub set_next : ℕ → ℕ → Driver → Driver
set_next i n d = record d { desc = update d.desc i (record (d.desc i) { next = n }) }

-- The loop of `init_free_list`, with the rounds that are left: each descriptor names the next one.
unfoldable pub link_all : (rounds i : ℕ) → Driver → Driver
link_all zero i d = d
link_all (suc rounds) i d = link_all rounds (i + 1) (set_next i (i + 1) d)

-- `vq_lock` and `free_slots` are the addresses of the driver's lock and semaphore.
unfoldable pub init_free_list : (vq_lock free_slots : ℕ) → Blk → Blk
init_free_list vq_lock free_slots b = record b {
  driver = record (link_all (b.driver.num - 1) 0 b.driver) { free_head_idx = 0 };
  sys = spinlock_init vq_lock (sem_init free_slots (b.driver.num / req_num_desc) b.sys);
}

abbrev pub align_up : ℕ → ℕ → ℕ
align_up x a = (x + (a - 1)) / a * a

-- where the parts of the queue are, as the device is told
pub record Queue : Type 0 where
  pub queue_size : ℕ
  pub queue_desc : ℕ
  pub queue_driver : ℕ
  pub queue_device : ℕ

-- 16 bytes for a descriptor and 4 for `struct virtq_avail`, whose ring has no length of its own
unfoldable pub place_queue : (n page : ℕ) → Queue
place_queue n page =
    let desc = align_up page 16 in
    let avail = align_up (desc + 16 * n) 2 in
    record {
      queue_size = n;
      queue_desc = desc;
      queue_driver = avail;
      queue_device = align_up (avail + 4 * n) 4;
    }

-- `queue_size` is what the device offers. A page is named by its number here, and its address is
-- 4096 times that.
unfoldable pub setup_queues :
    (vq_lock free_slots queue_size : ℕ) → Blk → Pages → Result Queue × (Blk × Pages)
setup_queues vq_lock free_slots queue_size b m =
    let n = if ltb max_queue_size queue_size then max_queue_size else queue_size in
    let b1 = record b { driver = record b.driver { num = n } } in
    let (page, m1) = page_alloc m in
    if n == 0 then (err enodev, (b, m)) else (elim page [
      | none ↦ (err enomem, (b1, m1))
      | some p ↦ (ok (place_queue n (4096 * p)), (init_free_list vq_lock free_slots b1, m1))
    ])

-- What `submit_req` does with the lock held. The device may take the request at the last write.
unfoldable pub fill_chain : (r type buffer size : ℕ) → Driver → Driver
fill_chain r type buffer size d =
    let idx0 = d.free_head_idx in
    let idx1 = (d.desc idx0).next in
    let idx2 = (d.desc idx1).next in
    let new_free_slot = (d.desc idx2).next in
    let data_flags = if type == 0 then desc_f_next + desc_f_write else desc_f_next in
    let hdr : Desc = record { addr = hdr_of r; len = 16; flags = desc_f_next; next = idx1 } in
    let body : Desc = record {
      addr = buffer_at buffer;
      len = size;
      flags = data_flags;
      next = idx2;
    } in
    let status : Desc = record { addr = status_of r; len = 1; flags = desc_f_write; next = 0 } in
    record d {
      desc = update (update (update d.desc idx0 hdr) idx1 body) idx2 status;
      avail_ring = update d.avail_ring (d.avail_idx % d.num) idx0;
      free_head_idx = new_free_slot;
      inflight = update d.inflight idx0 r;
      avail_idx = (d.avail_idx + 1) % 2 ^ 16;
    }

-- The loop of `release_desc_chain` on fuel, which gives the last descriptor of the chain.
unfoldable pub clear_loop : (fuel curr : ℕ) → Driver → ℕ × Driver
clear_loop zero curr d = (curr, d)
clear_loop (suc fuel) curr d =
    let cleared = record d { desc = update d.desc curr (record (d.desc curr) { flags = 0 }) } in
    let rest = clear_loop fuel (d.desc curr).next cleared in
    if (d.desc curr).flags % 2 == 1 then rest else (curr, d)

-- The chain comes before the others of the free list.
unfoldable pub push_chain : (head status : ℕ) → Driver → Driver
push_chain head status d = record (set_next status d.free_head_idx d) { free_head_idx = head }
