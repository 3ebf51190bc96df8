-- ===== src/Blk/Tests.antt =====
-- The driver of the block device with a table of six descriptors.
use rv_mini_os.Prelude.{ℕ, ◌+◌, ◌≡◌, refl, false, some, [], ◌∷◌, arith, ◌==◌, if◌then◌else◌}
use rv_mini_os.Sched.Tests.{four_tasks}
use rv_mini_os.Sync.{Sys}
use rv_mini_os.Sync.Unlock.{Calm}
use rv_mini_os.Pages.{Pages}
use rv_mini_os.Blk.{Blk, Desc, Driver, Target, setup_queues}
use rv_mini_os.Blk.Requests.{submit_req, release_desc_chain}
use rv_mini_os.Blk.Chains.{Chain, IsRing}
use rv_mini_os.Blk.Setup.{Ready, used_of, setup_queues-Ready}
use rv_mini_os.Blk.Submit.{Submitted, submit_req-Submitted}
use rv_mini_os.Blk.Release.{GivenBack, release_desc_chain-GivenBack}

abbrev quiet : Sys
quiet = record {
  kernel = four_tasks;
  mutex = λ m. record { locked = false; owner = 0 };
  count = λ a. 1;
  flag = λ l. false;
}

abbrev pub linked : ℕ → Desc
linked i = record { addr = Target.nothing; len = 0; flags = 0; next = i + 1 }

-- The device has used the request at descriptor 0, and the index is about to wrap around.
abbrev pub six_free : Driver
six_free = record {
  num = 6;
  desc = linked;
  avail_idx = 65535;
  avail_ring = λ i. 0;
  used_idx = 0;
  used_ring = λ i. record { id = 0; len = 512 };
  free_head_idx = 0;
  inflight = λ i. 40;
  last_seen_used = 65535;
  irq_status = 1;
  notified = 0;
}

abbrev free_driver : Blk
free_driver = record {
  driver = six_free;
  req = λ r. record { type = 0; sector = 8; head = 0; len = 0; status = 0 };
  sys = quiet;
}

-- The request 40 is in flight on the descriptors 0, 1 and 2.
abbrev busy_driver : Blk
busy_driver = record free_driver {
  driver = record six_free {
    desc = λ i.
        if i == 0
        then record { addr = Target.hdr_of 40; len = 16; flags = 1; next = 1 }
        else if i == 1
        then record { addr = Target.buffer_at 50; len = 1024; flags = 3; next = 2 }
        else if i == 2
        then record { addr = Target.status_of 40; len = 1; flags = 2; next = 0 }
        else linked i;
    free_head_idx = 3;
  };
}

abbrev first_chain : Chain
first_chain = record { head = 0; body = 1; last = 2; req = 40 }

quiet-Calm : Calm 100 quiet
quiet-Calm = record { outside = refl; no_resched = refl; free = refl }

six_free-IsRing : IsRing six_free (0 ∷ 1 ∷ 2 ∷ 3 ∷ 4 ∷ 5 ∷ []) []
six_free-IsRing = record {
  links = omega arith;
  held = tt;
  distinct = (refl, (refl, (refl, (refl, (refl, (refl, tt))))));
  inside = λ x h. ground arith;
}

busy-IsRing : IsRing busy_driver.driver (3 ∷ 4 ∷ 5 ∷ []) (first_chain ∷ [])
busy-IsRing = record {
  links = omega arith;
  held = (
    record {
      head_goes_on = refl;
      body_goes_on = refl;
      last_ends = refl;
      head_next = refl;
      body_next = refl;
      hdr = refl;
      status = refl;
      known = refl;
    },
    tt,
  );
  distinct = (refl, (refl, (refl, (refl, (refl, (refl, tt))))));
  inside = λ x h. ground arith;
}

submit_req-Submitted_example :
    (b' : Blk) × (submit_req 100 40 50 1024 free_driver ≡ some (b', false))
    × Submitted 100 40 50 1024
        (record { head = 0; body = 1; last = 2; req = 40 })
        (3 ∷ 4 ∷ 5 ∷ [])
        []
        free_driver
        b'
submit_req-Submitted_example =
    submit_req-Submitted 100 40 50 1024 0 1 2 (3 ∷ 4 ∷ 5 ∷ []) [] free_driver quiet-Calm
      six_free-IsRing

release_desc_chain-GivenBack_example :
    GivenBack 101 first_chain
      (3 ∷ 4 ∷ 5 ∷ [])
      []
      busy_driver
      (release_desc_chain 100 101 0 busy_driver)
release_desc_chain-GivenBack_example =
    release_desc_chain-GivenBack 100 101 first_chain (3 ∷ 4 ∷ 5 ∷ []) [] [] busy_driver quiet-Calm
      refl (λ e. cc) (record { here = λ t h. ground arith; once = tt }) (omega arith) busy-IsRing

abbrev one_page : Pages
one_page = record { free_pages = 4 ∷ []; page_rc = λ p. 0; content = λ p i. 0 }

setup_queues-Ready_example :
    Ready 101 (used_of 256) 4 (setup_queues 100 101 256 free_driver one_page)
setup_queues-Ready_example =
    setup_queues-Ready 100 101 256 4 [] free_driver one_page (omega arith) refl
