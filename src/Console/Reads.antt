-- ===== src/Console/Reads.antt =====
-- A read from the console gives the user what was received.
use rv_mini_os.Prelude.{
  ℕ, ◌≤◌, ◌<◌, ◌+◌, ◌%◌, ◌≡◌, refl, false, some, List, [], ◌∷◌, ◌++◌, arith, ltb, length,
}
use rv_mini_os.Err.{ok}
use rv_mini_os.Pages.{Pages}
use rv_mini_os.Vpages.Copy.{get_pa_from_va, store_bytes, user_write, vpage_copyout}
use rv_mini_os.Vpages.SamePage.{get_pa_from_va-same_page}
use rv_mini_os.Uart.Input.{Input}
use rv_mini_os.Uart.Received.{HoldsChars, uart_read-oldest}
use rv_mini_os.Console.{gives, read_chars, console_read}

read_chars-oldest :
    (rx_count : ℕ) (xs ys : List ℕ) (s : Input)
    → HoldsChars rx_count (xs ++ ys) s
    → (s' : Input) × (read_chars (length xs) rx_count s ≡ some (some xs, s'))
      × HoldsChars rx_count ys s'
unfolding read_chars
read_chars-oldest rx_count [] ys s h = (s, refl, h)
read_chars-oldest rx_count (x ∷ xs) ys s h =
    let (s1, e, h1) = uart_read-oldest rx_count x (xs ++ ys) s h in
    let (s2, f, h2) = read_chars-oldest rx_count xs ys s1 h1 in (s2, rw (e, read_chars, f), h2)

-- If the ring holds as many characters as a user asks for, 1024 at most, which the semaphore counts,
-- nobody waits, the user may write at the address, and the characters fit into the rest of its page:
-- `console_read` does not wait and gives the number. The oldest characters are stored one behind the
-- other from the physical address on, to which the addresses of the user's buffer are translated in
-- step, and the ring holds the others.
pub console_read-Reads :
    (root rx_count va pa : ℕ) (xs ys : List ℕ) (s : Input) (m m1 : Pages)
    → length xs ≤ 1024
    → HoldsChars rx_count (xs ++ ys) s
    → get_pa_from_va root va user_write m ≡ some (some pa, m1)
    → va % 4096 + length xs ≤ 4096
    → (s' : Input) × (console_read root rx_count va (length xs) s m
        ≡ some (gives (ok (length xs)) s' (store_bytes pa xs m1)))
      × HoldsChars rx_count ys s'
      × ((i : ℕ)
          → i < length xs
          → get_pa_from_va root (va + i) user_write m ≡ some (some (pa + i), m1))
unfolding console_read vpage_copyout
console_read-Reads root rx_count va pa xs ys s m m1 fits h mapped in_page =
    let (s1, e, h1) = read_chars-oldest rx_count xs ys s h in
    let short : ltb 1024 (length xs) ≡ false = ground arith in
    (
      s1,
      rw (short, e, mapped),
      h1,
      λ i below. get_pa_from_va-same_page root va i user_write pa m m1 (omega arith) mapped,
    )
