-- ===== src/Uart.antt =====
-- The ring of received characters in src/kernel/drivers/uart/ns16550.c.
pub mod Queue
pub mod Input
pub mod Received
pub mod Tests
use rv_mini_os.Prelude.{ℕ, ◌+◌, ◌%◌, Bool, ◌==◌, if◌then◌else◌, update}
use rv_mini_os.Err.{Result, ok, err, enospc}

-- `UART_RX_BUFFER_SIZE`
abbrev pub size : ℕ
size = 128

pub record Ring : Type 0 where
  pub buf : ℕ → ℕ
  pub head : ℕ
  pub tail : ℕ

unfoldable pub buffer_empty : Ring → Bool
buffer_empty b = b.head == b.tail

unfoldable pub buffer_full : Ring → Bool
buffer_full b = (b.head + 1) % size == b.tail

unfoldable pub buffer_put : ℕ → Ring → Result ℕ × Ring
buffer_put c b =
    if buffer_full b
    then (err enospc, b)
    else (ok 0, record b { buf = update b.buf b.head c; head = (b.head + 1) % size })

unfoldable pub buffer_get : Ring → ℕ × Ring
buffer_get b =
    if buffer_empty b then (0, b) else (b.buf b.tail, record b { tail = (b.tail + 1) % size })
