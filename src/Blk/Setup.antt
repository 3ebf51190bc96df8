-- ===== src/Blk/Setup.antt =====
-- The queue of the block driver at the start: its place in memory and its free list.
use rv_mini_os.Prelude.{
  ℕ, zero, suc, ◌+◌, ◌-◌, ◌*◌, ◌/◌, ◌%◌, ◌≤◌, ◌<◌, ◌≡◌, refl, sym, ◌∙◌, true, false, List, [], ◌∷◌,
  arith, ◌==◌, ltb, if◌then◌else◌, has, Distinct, append-nil, ==_refl,
}
use mathlib.Core.Path.{subst}
use rv_mini_os.Err.{Result, ok}
use rv_mini_os.Pages.{Pages, page_alloc}
use rv_mini_os.Sync.{sem_init, spinlock_init}
use rv_mini_os.Blk.{
  Blk, Driver, Queue, set_next, link_all, init_free_list, place_queue, setup_queues,
}
use rv_mini_os.Blk.Chains.{Links, IsRing}

-- the numbers from `i` on, `n` of them
abbrev pub upto : (i n : ℕ) → List ℕ
upto i zero = []
upto i (suc n) = i ∷ upto (i + 1) n

link_all-below : (n i x : ℕ) (d : Driver) → x < i → (link_all n i d).desc x ≡ d.desc x
unfolding link_all
link_all-below zero i x d h = refl
link_all-below (suc n) i x d h =
    link_all-below n (i + 1) x (set_next i (i + 1) d) (omega arith) ∙ ground arith

link_all-Links : (n i : ℕ) (d : Driver) → Links (link_all n i d).desc i (upto i (suc n))
unfolding link_all
link_all-Links zero i d = (refl, tt)
link_all-Links (suc n) i d =
    let first = link_all-below n (i + 1) i (set_next i (i + 1) d) (omega arith) in
    let second : ((link_all n (i + 1) (set_next i (i + 1) d)).desc i).next ≡ i + 1 =
      rw first (ground (arith, ==_refl i)) in
    (refl, rw second (link_all-Links n (i + 1) (set_next i (i + 1) d)))

link_all-num : (n i : ℕ) (d : Driver) → (link_all n i d).num ≡ d.num
unfolding link_all
link_all-num zero i d = refl
link_all-num (suc n) i d = link_all-num n (i + 1) (set_next i (i + 1) d)

has-upto : (n i x : ℕ) → has x (upto i n) ≡ true → (i ≤ x) × (x < i + n)
has-upto zero i x h = absurd (ground arith)
has-upto (suc n) i x h = ground (arith, has-upto n (i + 1) x)

Distinct-upto : (n i : ℕ) → Distinct (upto i n)
Distinct-upto zero i = tt
Distinct-upto (suc n) i = (ground (arith, has-upto n (i + 1) i), Distinct-upto n (i + 1))

pub init_free_list-IsRing :
    (vq_lock free_slots n : ℕ) (b : Blk)
    → b.driver.num ≡ n
    → 0 < n
    → IsRing (init_free_list vq_lock free_slots b).driver (upto 0 n) []
unfolding init_free_list
init_free_list-IsRing vq_lock free_slots zero b e h = absurd (omega arith)
init_free_list-IsRing vq_lock free_slots (suc n) b e pos =
    let rounds : b.driver.num - 1 ≡ n = omega arith in
    let linked =
      subst (λ k. Links (link_all k 0 b.driver).desc 0 (upto 0 (suc n))) (sym rounds)
        (link_all-Links n 0 b.driver) in
    record {
      links = linked;
      held = tt;
      distinct = rw (append-nil (upto 1 n)) (Distinct-upto (suc n) 0);
      inside = λ x h.
          let listed : has x (upto 0 (suc n)) ≡ true = rw (append-nil (upto 1 n)) at h in
          omega (arith, link_all-num (b.driver.num - 1) 0 b.driver, has-upto (suc n) 0 x listed);
    }

init_free_list-count :
    (vq_lock free_slots : ℕ) (b : Blk)
    → (init_free_list vq_lock free_slots b).sys.count free_slots ≡ b.driver.num / 3
unfolding init_free_list sem_init spinlock_init
init_free_list-count vq_lock free_slots b = rw (==_refl free_slots)

-- The parts of a queue of `n` entries do not overlap, and lie in the page from `start` on: 16 bytes
-- for a descriptor, 4 and 2 for each entry for the available ring, 4 and 8 for each for the used one.
pub record InPage (q : Queue) (n start : ℕ) : Type 0 where
  pub size_is : q.queue_size ≡ n
  pub starts : start ≤ q.queue_desc
  pub before_driver : q.queue_desc + 16 * n ≤ q.queue_driver
  pub before_device : q.queue_driver + (4 + 2 * n) ≤ q.queue_device
  pub ends : q.queue_device + (4 + 8 * n) ≤ start + 4096
  pub desc_aligned : q.queue_desc % 16 ≡ 0
  pub driver_aligned : q.queue_driver % 2 ≡ 0
  pub device_aligned : q.queue_device % 4 ≡ 0

place_queue-InPage :
    (n page : ℕ) → 2 ≤ n → n ≤ 16 → InPage (place_queue n (4096 * page)) n (4096 * page)
unfolding place_queue
place_queue-InPage n page h k = omega arith

-- the entries that the driver uses of those that the device offers
abbrev pub used_of : ℕ → ℕ
used_of offered = if ltb 16 offered then 16 else offered

used_of_bounds : (q : ℕ) → 2 ≤ q → (2 ≤ used_of q) × (used_of q ≤ 16)
used_of_bounds q h = ground arith

pub record Ready (free_slots n page : ℕ) (r : Result Queue × (Blk × Pages)) : Type 0 where
  pub queue : Queue
  pub succeeds : r.0 ≡ ok queue
  pub in_page : InPage queue n (4096 * page)
  pub ring : IsRing r.1.0.driver (upto 0 n) []
  pub slots : r.1.0.sys.count free_slots ≡ n / 3

-- With a page free and two entries or more on offer, `setup_queues` succeeds and uses 16 of them at
-- most. The three parts of the queue do not overlap, lie in the page that was free and are aligned as
-- the device wants; all descriptors are free, in their order, and a third of them are slots.
pub setup_queues-Ready :
    (vq_lock free_slots offered page : ℕ) (rest : List ℕ) (b : Blk) (m : Pages)
    → 2 ≤ offered
    → m.free_pages ≡ page ∷ rest
    → Ready free_slots (used_of offered) page (setup_queues vq_lock free_slots offered b m)
unfolding setup_queues page_alloc
setup_queues-Ready vq_lock free_slots offered page rest b m h e =
    let bounds = used_of_bounds offered h in
    let n = used_of offered in
    let nonzero : (n == 0) ≡ false = ground (arith, bounds) in
    let ring =
      init_free_list-IsRing vq_lock free_slots n
        (record b { driver = record (b.driver) { num = n } }) refl (omega (arith, bounds)) in
    rw (e, nonzero)
      (record {
        queue = place_queue n (4096 * page);
        succeeds = refl;
        in_page = place_queue-InPage n page bounds.0 bounds.1;
        ring = ring;
        slots =
            init_free_list-count vq_lock free_slots
              (record b { driver = record (b.driver) { num = n } });
      })
