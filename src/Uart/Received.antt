-- ===== src/Uart/Received.antt =====
-- What is received is read, in its order.
use rv_mini_os.Prelude.{
  ℕ, ◌<◌, ◌≡◌, refl, sym, ap, ◌∙◌, false, some, List, [], ◌∷◌, ◌++◌, arith, ◌==◌, if◌then◌else◌,
  length, length-append, take, take-append_full, take-short, append-nil, append_assoc, Bool-cases,
  inl, inr,
}
use rv_mini_os.Sync.Quiet.{Idle, sem_post-plain, sem_wait-plain}
use rv_mini_os.Uart.{buffer_put, buffer_get}
use rv_mini_os.Uart.Queue.{IsQueue, buffer_put-IsQueue, buffer_get-IsQueue}
use rv_mini_os.Uart.Input.{Input, fill_loop, uart_read}

-- The ring holds the characters, the semaphore counts them, and no reader waits.
pub record HoldsChars (rx_count : ℕ) (xs : List ℕ) (s : Input) : Type 0 where
  pub queue : IsQueue s.ring xs
  pub counted : s.sys.count rx_count ≡ length xs
  pub idle : Idle rx_count s.sys

-- one more character, if there is room
abbrev added : ℕ → List ℕ → List ℕ
added c xs = if length xs == 127 then xs else xs ++ c ∷ []

fill_loop-next :
    (rx_count c : ℕ) (cs xs : List ℕ) (s : Input)
    → HoldsChars rx_count xs s
    → (s' : Input) × (fill_loop rx_count (c ∷ cs) s ≡ fill_loop rx_count cs s')
      × HoldsChars rx_count (added c xs) s'
unfolding fill_loop
fill_loop-next rx_count c cs xs s h =
    let put = buffer_put-IsQueue c s.ring xs h.queue in
    let s1 : Input = record s { ring = (buffer_put c s.ring).1 } in
    elim (Bool-cases (length xs == 127)) [
      | inl full ↦ (
        s1,
        rw (put.0, full),
        rw full (record { queue = rw full at put.1; counted = h.counted; idle = h.idle }),
      )
      | inr free ↦
          let posted =
            sem_post-plain rx_count s.sys h.idle (omega (arith, h.counted, h.queue.fits)) in
          (
            record s1 { sys = posted.0 },
            rw (put.0, free, posted.1),
            rw free (record {
              queue = rw free at put.1;
              counted = omega (arith, posted.3, h.counted, length-append xs (c ∷ []));
              idle = posted.2;
            }),
          )
    ]

added-take :
    (c : ℕ) (xs cs : List ℕ)
    → length xs < 128
    → take 127 (added c xs ++ cs) ≡ take 127 (xs ++ c ∷ cs)
added-take c xs cs h = elim (Bool-cases (length xs == 127)) [
  | inl full ↦ rw full (
      take-append_full 127 xs cs (ground arith)
      ∙ sym (take-append_full 127 xs (c ∷ cs) (ground arith)))
  | inr free ↦ rw free (ap (take 127) (append_assoc xs (c ∷ []) cs))
]

-- If the ring holds characters which the semaphore counts, no reader waits, and the daemon is outside
-- of critical sections with no switch due: the daemon's loop over the characters that are ready does
-- not let another task run. It puts them behind the others in their order, drops what is more than
-- 127, and posts the semaphore once for each that is kept.
pub fill_loop-HoldsChars :
    (rx_count : ℕ) (cs xs : List ℕ) (s : Input)
    → HoldsChars rx_count xs s
    → (s' : Input) × (fill_loop rx_count cs s ≡ some (s', false))
      × HoldsChars rx_count (take 127 (xs ++ cs)) s'
fill_loop-HoldsChars rx_count [] xs s h = (
  record s { received = [] },
  unfold fill_loop in refl,
  rw (append-nil xs, take-short 127 xs (omega (arith, h.queue.fits)))
      (record { queue = h.queue; counted = h.counted; idle = h.idle }),
)
fill_loop-HoldsChars rx_count (c ∷ cs) xs s h =
    let (s1, e, h1) = fill_loop-next rx_count c cs xs s h in
    let (s2, f, h2) = fill_loop-HoldsChars rx_count cs (added c xs) s1 h1 in
    (s2, e ∙ f, rw (← added-take c xs cs h.queue.fits) h2)

-- A reader that finds a character in the ring does not wait: `uart_read` gives the oldest one, and the
-- ring holds the others.
pub uart_read-oldest :
    (rx_count x : ℕ) (xs : List ℕ) (s : Input)
    → HoldsChars rx_count (x ∷ xs) s
    → (s' : Input) × (uart_read rx_count s ≡ some (some x, s')) × HoldsChars rx_count xs s'
unfolding uart_read
uart_read-oldest rx_count x xs s h =
    let taken = sem_wait-plain rx_count (length xs) s.sys h.idle h.counted in
    let got = buffer_get-IsQueue s.ring (x ∷ xs) h.queue in
    (
      record s { sys = taken.0; ring = (buffer_get s.ring).1 },
      rw (taken.1, got.0),
      record { queue = got.1; counted = taken.3; idle = taken.2 },
    )
