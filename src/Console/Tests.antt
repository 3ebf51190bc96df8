-- ===== src/Console/Tests.antt =====
-- A read from the console into a page of a user.
use rv_mini_os.Prelude.{ℕ, ◌+◌, ◌<◌, ◌≡◌, refl, some, [], ◌∷◌, arith, ◌==◌, if◌then◌else◌}
use rv_mini_os.Err.{ok}
use rv_mini_os.Pages.{Pages}
use rv_mini_os.Vpages.{
  has_flag, get_va_vpn, get_next_lvl_pte, is_a_next_lvl_ptr, walk_from, walk_leaf,
}
use rv_mini_os.Vpages.Copy.{get_pa_from_va, check_flags, store_bytes, user_write}
use rv_mini_os.Uart.Input.{Input}
use rv_mini_os.Uart.Received.{HoldsChars}
use rv_mini_os.Uart.Tests.{two_received, two_received-HoldsChars}
use rv_mini_os.Console.{gives, console_read}
use rv_mini_os.Console.Reads.{console_read-Reads}

-- The tables 1, 2 and 3 map page 7 at 0x5000 for the user to read and write.
abbrev words : ℕ → ℕ → ℕ
words t i =
    if t == 1
    then (if i == 0 then 2049 else 0)
    else if t == 2
    then (if i == 0 then 3073 else 0)
    else if t == 3
    then (if i == 5 then 7383 else 0)
    else 0

abbrev space : Pages
space = record { free_pages = []; page_rc = λ p. 1; content = words }

mapped : get_pa_from_va 1 0x5002 user_write space ≡ some (some 0x7002, space)
unfolding get_pa_from_va walk_leaf walk_from get_va_vpn get_next_lvl_pte is_a_next_lvl_ptr has_flag
    check_flags
mapped = refl

console_read-Reads_example :
    (s' : Input) × (console_read 1 9 0x5002 1 two_received space
      ≡ some (gives (ok 1) s' (store_bytes 0x7002 (97 ∷ []) space)))
    × HoldsChars 9 (98 ∷ []) s'
    × ((i : ℕ)
        → i < 1
        → get_pa_from_va 1 (0x5002 + i) user_write space ≡ some (some (0x7002 + i), space))
console_read-Reads_example =
    console_read-Reads 1 9 0x5002 0x7002 (97 ∷ []) (98 ∷ []) two_received space space (omega arith)
      two_received-HoldsChars mapped (omega arith)
