-- ===== src/Syscalls/Dispatch.antt =====
-- The table of system calls, src/kernel/core/syscall/syscall.c, in the order of
-- src/include/user/syscall_def.h, with sys_time.c. Arguments and results are words of 64 bits.
use rv_mini_os.Prelude.{
  ℕ, ◌-◌, ◌%◌, ◌^◌, Bool, true, false, Option, none, some, ◌==◌, ltb, if◌then◌else◌,
}
use rv_mini_os.Err.{Result, ok, err}
use rv_mini_os.Pages.{Pages}
use rv_mini_os.Fs.Bcache.{Bytes}
use rv_mini_os.Files.{Offset, forward, backward}
use rv_mini_os.Elf.{Device}
use rv_mini_os.Sched.{scheduler_sleep}
use rv_mini_os.Proc.{World, on_run}
use rv_mini_os.Proc.Exec.{Done}
use rv_mini_os.Proc.Wait.{Waited, sys_wait, sys_waitpid}
use rv_mini_os.Syscalls.{
  sys_open, sys_write, sys_read, sys_close, sys_seek, sys_fork, sys_clone, sys_exec, sys_getpid,
  sys_exit, sys_exit_group,
}

-- What the calls are given beside their arguments: the callbacks of devices, the bytes of a buffer
-- that is not set, the address that `calloc` gives, and the symbols of the linker.
pub record Env : Type 0 where
  pub device_b : Device Bytes
  pub device_p : Device Pages
  pub junk : Bytes
  pub new : Option ℕ
  pub ram_start : ℕ
  pub trampoline_start : ℕ
  pub trampoline_end : ℕ

-- A call returns a word, or another task runs.
pub data Answer : Type 0 where
  returns : ℕ → World → Answer
  leaves : World → Answer

-- a result as the register holds it: -e in two's complement
unfoldable pub word : Result ℕ → ℕ
word (ok n) = n % 2 ^ 64
word (err e) = (2 ^ 64 - e) % 2 ^ 64

abbrev pub of_done : Done → Option Answer
of_done none = none
of_done (some (r, w)) = some (returns (word r) w)

-- a call without a result
abbrev pub of_run : Option (World × Bool) → Option Answer
of_run none = none
of_run (some (w, true)) = some (leaves w)
of_run (some (w, false)) = some (returns 0 w)

abbrev pub of_clone : Option (Result ℕ × (World × Bool)) → Option Answer
of_clone none = none
of_clone (some (r, (w, true))) = some (leaves w)
of_clone (some (r, (w, false))) = some (returns (word r) w)

-- a pid as an `int8_t`
abbrev pub pid_word : ℕ → ℕ
pid_word pid = if ltb pid 128 then pid else 2 ^ 64 - (256 - pid)

abbrev pub of_waited : Waited → Option Answer
of_waited none = none
of_waited (some (none, w)) = some (leaves w)
of_waited (some (some pid, w)) = some (returns (pid_word pid) w)

unfoldable pub sys_sleep : (s : ℕ) → World → Option (World × Bool)
sys_sleep s w = on_run w (scheduler_sleep s w.kernel)

-- a signed word as an offset
abbrev pub offset_of : ℕ → Offset
offset_of x = if ltb x (2 ^ 63) then forward x else backward (2 ^ 64 - x)

-- `SYS_NBR`
abbrev pub sys_nbr : ℕ
sys_nbr = 14

-- the entry of the table, with the arguments cut to their types
unfoldable pub syscall_tab : Env → (n a b c d : ℕ) → World → Option Answer
syscall_tab env n a b c d w =
    if n == 0
    then of_run (sys_sleep (a % 2 ^ 32) w)
    else if n == 1
    then of_run (sys_exit (a % 2 ^ 8) w)
    else if n == 2
    then of_run (sys_exit_group (a % 2 ^ 8) w)
    else if n == 3
    then of_waited (sys_wait w)
    else if n == 4
    then of_waited (sys_waitpid (a % 2 ^ 8) w)
    else if n == 5
    then some (returns (sys_getpid w % 2 ^ 8) w)
    else if n == 6
    then of_clone (sys_clone env.new a c d w)
    else if n == 7
    then of_clone (sys_fork env.new w)
    else if n == 8
    then of_done (
        sys_exec env.device_b env.device_p env.junk env.ram_start env.trampoline_start
          env.trampoline_end a b w)
    else if n == 9
    then of_done (sys_open env.junk a b w)
    else if n == 10
    then of_done (sys_write env.device_p (a % 2 ^ 32) b c w)
    else if n == 11
    then of_done (sys_read env.device_p (a % 2 ^ 32) b c w)
    else if n == 12
    then of_done (sys_close (a % 2 ^ 32) w)
    else of_done (sys_seek (a % 2 ^ 32) (offset_of b) (c % 2 ^ 32) w)

-- An unknown number is a panic.
unfoldable pub syscall_dispatch : Env → (n a b c d : ℕ) → World → Option Answer
syscall_dispatch env n a b c d w = if ltb n sys_nbr then syscall_tab env n a b c d w else none
