-- ===== src/Console.antt =====
-- The console as a file: the callbacks of src/kernel/drivers/console/bochs.c, on the text console, the
-- received characters and the copies to and from users. `root` is the root table of the running
-- task. `none` is a panic.
pub mod Reads
mod Tests
use rv_mini_os.Prelude.{ℕ, zero, suc, Option, none, some, List, [], ◌∷◌, take, ltb, if◌then◌else◌}
use rv_mini_os.Err.{Result, ok, err, einval}
use rv_mini_os.Pages.{Pages}
use rv_mini_os.Vpages.Copy.{vpage_copyin, vpage_copyout}
use rv_mini_os.Display.{Font, Screen, console_putbytes}
use rv_mini_os.Uart.Input.{Input, uart_read}

-- `SYS_BUFFER_SIZE`
abbrev pub sys_buffer_size : ℕ
sys_buffer_size = 1024

-- what is written: bytes at an address of the user, or bytes of the kernel
pub data Source : Type 0 where
  user_at : ℕ → Source
  kernel_bytes : List ℕ → Source

abbrev pub put_user :
    Font
    → (count : ℕ) → Screen
    → Option (Result (List ℕ) × Pages)
    → Option (Result ℕ × (Screen × Pages))
put_user font count s none = none
put_user font count s (some (err e, m)) = some (err e, (s, m))
put_user font count s (some (ok bytes, m)) = some (ok count, (console_putbytes font bytes s, m))

unfoldable pub console_write :
    Font → (root : ℕ) → Source → (count : ℕ) → Screen → Pages → Option (Result ℕ × (Screen × Pages))
console_write font root (user_at va) count s m =
    if ltb sys_buffer_size count
    then some (err einval, (s, m))
    else put_user font count s (vpage_copyin root va count m)
console_write font root (kernel_bytes bytes) count s m =
    some (ok count, (console_putbytes font (take count bytes) s, m))

-- The loop of `console_read`, with the rounds that are left. Without characters the reader waits.
unfoldable pub read_chars : (rounds rx_count : ℕ) → Input → Option (Option (List ℕ) × Input)
read_chars zero rx_count s = some (some [], s)
read_chars (suc rounds) rx_count s = elim (uart_read rx_count s) [
  | none ↦ none
  | some (none, s1) ↦ some (none, s1)
  | some (some c, s1) ↦ elim (read_chars rounds rx_count s1) [
    | none ↦ none
    | some (none, s2) ↦ some (none, s2)
    | some (some cs, s2) ↦ some (some (c ∷ cs), s2)
  ]
]

-- how a read by a user ends: it waits, or it has a result
pub data Reading : Type 0 where
  waits : Input → Reading
  gives : Result ℕ → Input → Pages → Reading

abbrev pub copied : (count : ℕ) → Input → Option (Result ℕ × Pages) → Option Reading
copied count s none = none
copied count s (some (err e, m)) = some (gives (err e) s m)
copied count s (some (ok n, m)) = some (gives (ok count) s m)

-- `console_read` for a user's buffer at `va`
unfoldable pub console_read : (root rx_count va count : ℕ) → Input → Pages → Option Reading
console_read root rx_count va count s m =
    if ltb sys_buffer_size count
    then some (gives (err einval) s m)
    else (elim (read_chars count rx_count s) [
      | none ↦ none
      | some (none, s1) ↦ some (waits s1)
      | some (some cs, s1) ↦ copied count s1 (vpage_copyout root va cs m)
    ])
