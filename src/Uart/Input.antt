-- ===== src/Uart/Input.antt =====
-- The received characters on their way from the device to a reader: the interrupt, the daemon that
-- fills the ring, and the reader, in src/kernel/drivers/uart/ns16550.c. The characters that the
-- device holds are a list; its other registers are left out. `fill_signal` and `rx_count` are the
-- addresses of the semaphores.
use rv_mini_os.Prelude.{ℕ, Bool, true, false, Option, none, some, List, [], ◌∷◌, if◌then◌else◌}
use rv_mini_os.Err.{is_err}
use rv_mini_os.Sync
use rv_mini_os.Sync.{Sys, sem_wait, sem_post}
use rv_mini_os.Uart.{Ring, buffer_put, buffer_get}

pub record Input : Type 0 where
  pub ring : Ring
  pub sys : Sys
  pub received : List ℕ
  pub rx_irq : Bool

-- A state, and whether another task runs now; or a fault.
abbrev pub Outcome : Type 0
Outcome = Option (Input × Bool)

abbrev pub on_sys : Input → Sync.Outcome → Outcome
on_sys s none = none
on_sys s (some (sys, switched)) = some (record s { sys = sys }, switched)

abbrev pub then_do : Outcome → (Input → Outcome) → Outcome
then_do none f = none
then_do (some (s, true)) f = some (s, true)
then_do (some (s, false)) f = f s

-- the inner loop of `fill_rx_buff_daemon`, over the characters that are ready
unfoldable pub fill_loop : (rx_count : ℕ) → List ℕ → Input → Outcome
fill_loop rx_count [] s = some (record s { received = [] }, false)
fill_loop rx_count (c ∷ cs) s =
    let (res, ring) = buffer_put c s.ring in
    let s1 = record s { ring = ring } in
    then_do (if is_err res then some (s1, false) else on_sys s1 (sem_post rx_count s1.sys))
      (fill_loop rx_count cs)

-- a round of the daemon
unfoldable pub fill_rx_buff : (fill_signal rx_count : ℕ) → Input → Outcome
fill_rx_buff fill_signal rx_count s = then_do (on_sys s (sem_wait fill_signal s.sys)) (λ s1.
    then_do (fill_loop rx_count s1.received s1) (λ s2. some (record s2 { rx_irq = true }, false)))

-- the character, if the reader need not wait
abbrev pub get_char : Outcome → Option (Option ℕ × Input)
get_char none = none
get_char (some (s, true)) = some (none, s)
get_char (some (s, false)) =
    let (c, ring) = buffer_get s.ring in some (some c, record s { ring = ring })

unfoldable pub uart_read : (rx_count : ℕ) → Input → Option (Option ℕ × Input)
uart_read rx_count s = get_char (on_sys s (sem_wait rx_count s.sys))

unfoldable pub uart_irq_handler : (fill_signal : ℕ) → Input → Outcome
uart_irq_handler fill_signal s =
    let s1 = record s { rx_irq = false } in on_sys s1 (sem_post fill_signal s1.sys)
