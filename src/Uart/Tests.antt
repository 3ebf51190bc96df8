-- ===== src/Uart/Tests.antt =====
-- The ring of characters with a wrapped queue of two.
use rv_mini_os.Prelude.{◌≡◌, refl, false, some, [], ◌∷◌, arith, update}
use rv_mini_os.Sched.Tests.{four_tasks}
use rv_mini_os.Uart.Input.{Input, fill_loop}
use rv_mini_os.Uart.Received.{HoldsChars, fill_loop-HoldsChars}
use rv_mini_os.Uart.{Ring}
use rv_mini_os.Uart.Queue.{IsQueue}

abbrev pub two_chars : Ring
two_chars = record { buf = update (update (λ i. 0) 127 97) 0 98; head = 1; tail = 127 }

two_chars-IsQueue : IsQueue two_chars (97 ∷ 98 ∷ [])
two_chars-IsQueue = record {
  tail_lt = omega arith;
  fits = omega arith;
  head_is = refl;
  holds = (refl, (refl, tt));
}

-- The ring holds two characters, which the semaphore 9 counts, and the device holds one more.
abbrev pub two_received : Input
two_received = record {
  ring = two_chars;
  sys = record {
    kernel = four_tasks;
    mutex = λ m. record { locked = false; owner = 0 };
    count = λ a. 2;
    flag = λ l. false;
  };
  received = 99 ∷ [];
  rx_irq = false;
}

pub two_received-HoldsChars : HoldsChars 9 (97 ∷ 98 ∷ []) two_received
two_received-HoldsChars = record {
  queue = two_chars-IsQueue;
  counted = refl;
  idle = record {
    calm = record { outside = refl; no_resched = refl; free = refl };
    no_waiter = refl;
  };
}

fill_loop-HoldsChars_example :
    (s' : Input) × (fill_loop 9 (99 ∷ []) two_received ≡ some (s', false))
    × HoldsChars 9 (97 ∷ 98 ∷ 99 ∷ []) s'
fill_loop-HoldsChars_example =
    fill_loop-HoldsChars 9 (99 ∷ []) (97 ∷ 98 ∷ []) two_received two_received-HoldsChars
