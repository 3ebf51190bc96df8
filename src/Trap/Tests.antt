-- ===== src/Trap/Tests.antt =====
-- Traps of a task whose page is shared copy-on-write.
use rv_mini_os.Prelude.{ℕ, ◌+◌, refl, true, false, none, [], arith, update}
use rv_mini_os.Vpages.Tests.{places, space, space-IsTree, space-IsPages, leaf_5, page_7}
use rv_mini_os.Uart.Tests.{two_chars}
use rv_mini_os.Blk.Tests.{six_free}
use rv_mini_os.Proc.Tests.{family_world}
use rv_mini_os.Syscalls.Dispatch.{Env}
use rv_mini_os.Trap.{Machine, Semaphores, usertrap}
use rv_mini_os.Trap.Faults.{Retries, usertrap-Retries}

abbrev env : Env
env = record {
  device_b = λ cb f count w m. none;
  device_p = λ cb f count w m. none;
  junk = λ i. 0;
  new = none;
  ram_start = 0x80000000;
  trampoline_start = 0x80001000;
  trampoline_end = 0x80002000;
}

abbrev sems : Semaphores
sems = record { clock = 20; tick = 21; fill_signal = 22; completion = λ r. r + 100 }

-- Task 1 runs, in the space of root 1; its trap has the given cause and system call number.
abbrev trapped : (cause number : ℕ) → Machine
trapped cause number = record {
  world = record family_world {
    pages = space;
    space = λ t. record { root_ptable = 1; tframe_pa = 0; tframe_va = 0 };
  };
  mutex = λ m. record { locked = false; owner = 0 };
  count = λ a. 0;
  flag = λ l. false;
  frame = λ t. record { a = update (λ i. 0) 7 number; sepc = 4096; scause = cause };
  ring = two_chars;
  received = [];
  rx_irq = true;
  driver = six_free;
  req = λ r. record { type = 0; sector = 8; head = 0; len = 0; status = 0 };
  registers = λ i. 0;
}

usertrap-Retries_example :
    Retries places 20480 7507 (trapped 15 0) (usertrap env sems 0 20480 (trapped 15 0))
usertrap-Retries_example =
    usertrap-Retries env sems 0 20480 7507 places (trapped 15 0) refl space-IsTree space-IsPages
      (omega arith) leaf_5 refl (λ z. omega (arith, page_7.0)) page_7.1 (λ z. omega arith)
