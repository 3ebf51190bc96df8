-- ===== src/Trap.antt =====
-- The handling of traps, src/arch/trap.c: what the registers say about the cause leads to a system
-- call, a page fault, an interrupt or a panic (`none`). A machine is a World with what the interrupts
-- work on beside it, and the frames of tasks, by their addresses. What exec, clone and the start of a
-- task write in frames is left out, and so are printed texts and the two machine status registers.
pub mod Faults
mod Tests
use rv_mini_os.Prelude.{
  ℕ, ◌+◌, ◌-◌, ◌%◌, ◌^◌, Bool, true, false, Option, none, some, List, ◌==◌, leb, if◌then◌else◌,
  update,
}
use rv_mini_os.Err.{Result, ok, err}
use rv_mini_os.Pages.{Pages}
use rv_mini_os.Vpages.{Call, vpage_handle_cow}
use rv_mini_os.Sync
use rv_mini_os.Sync.{Sys, Mutex}
use rv_mini_os.Time.{time_irq_handler}
use rv_mini_os.Uart.{Ring}
use rv_mini_os.Uart.Input
use rv_mini_os.Uart.Input.{Input, uart_irq_handler}
use rv_mini_os.Blk.{Blk, Driver, Req}
use rv_mini_os.Blk.Requests
use rv_mini_os.Blk.Requests.{virtio_irq_handler}
use rv_mini_os.Plic.{Registers, plic_handle_irq}
use rv_mini_os.Proc.{World, set_kernel, set_pages, exit_task}
use rv_mini_os.Syscalls.Dispatch.{Env, Answer, returns, leaves, syscall_dispatch}

-- the registers of a frame that the handlers look at
pub record Frame : Type 0 where
  pub a : ℕ → ℕ
  pub sepc : ℕ
  pub scause : ℕ

pub record Machine : Type 0 where
  pub world : World
  pub mutex : ℕ → Mutex
  pub count : ℕ → ℕ
  pub flag : ℕ → Bool
  pub frame : ℕ → Frame
  pub ring : Ring
  pub received : List ℕ
  pub rx_irq : Bool
  pub driver : Driver
  pub req : ℕ → Req
  pub registers : Registers

-- the semaphores of the interrupts
pub record Semaphores : Type 0 where
  pub clock : ℕ
  pub tick : ℕ
  pub fill_signal : ℕ
  pub completion : ℕ → ℕ

-- A machine, and whether another task runs now; or a panic.
abbrev pub Outcome : Type 0
Outcome = Option (Machine × Bool)

abbrev pub sys_of : Machine → Sys
sys_of m = record { kernel = m.world.kernel; mutex = m.mutex; count = m.count; flag = m.flag }

abbrev pub with_sys : Sys → Machine → Machine
with_sys s m = record m {
  world = set_kernel m.world s.kernel;
  mutex = s.mutex;
  count = s.count;
  flag = s.flag;
}

abbrev pub after_sys : Machine → Sync.Outcome → Outcome
after_sys m none = none
after_sys m (some (s, switched)) = some (with_sys s m, switched)

abbrev pub after_uart : Machine → Input.Outcome → Outcome
after_uart m none = none
after_uart m (some (i, switched)) = some (
  record (with_sys i.sys m) { ring = i.ring; received = i.received; rx_irq = i.rx_irq },
  switched,
)

abbrev pub after_blk : Machine → Requests.Outcome → Outcome
after_blk m none = none
after_blk m (some (b, switched)) =
    some (record (with_sys b.sys m) { driver = b.driver; req = b.req }, switched)

abbrev pub on_machine : (Machine → Outcome) → Outcome → Outcome
on_machine f none = none
on_machine f (some (m, true)) = some (m, true)
on_machine f (some (m, false)) = f m

-- The claim is completed behind the handler of the device.
abbrev pub completed : Outcome × Registers → Outcome
completed (none, r) = none
completed (some (m, true), r) = some (m, true)
completed (some (m, false), r) = some (record m { registers = r }, false)

abbrev pub uart_irq : Semaphores → Machine → Outcome
uart_irq sems m = after_uart m (
    uart_irq_handler sems.fill_signal
      (record { ring = m.ring; sys = sys_of m; received = m.received; rx_irq = m.rx_irq }))

abbrev pub blk_irq : Semaphores → Machine → Outcome
blk_irq sems m =
    after_blk m (
      virtio_irq_handler sems.completion
        (record { driver = m.driver; req = m.req; sys = sys_of m }))

-- `S_IRQ_EXT` is 9 and `S_IRQ_TMR` 5; `claimed` is what the controller gives.
unfoldable pub handler_async_irq : Semaphores → (claimed cause : ℕ) → Machine → Outcome
handler_async_irq sems claimed cause m =
    if cause == 9
    then completed (
        plic_handle_irq (on_machine (uart_irq sems)) (on_machine (blk_irq sems)) claimed
          (some (m, false)) m.registers)
    else if cause == 5
    then after_sys m (time_irq_handler sems.clock sems.tick (sys_of m))
    else some (m, false)

-- An exception of the kernel is a panic.
unfoldable pub kerneltrap : Semaphores → (claimed scause : ℕ) → Machine → Outcome
kerneltrap sems claimed scause m =
    if leb (2 ^ 63) scause then handler_async_irq sems claimed (scause - 2 ^ 63) m else none

abbrev pub set_frame : ℕ → Frame → Machine → Machine
set_frame t f m = record m { frame = update m.frame t f }

abbrev pub answered : (t : ℕ) → Machine → Option Answer → Outcome
answered t m none = none
answered t m (some (returns x w)) =
    let f = m.frame t in
    some (set_frame t (record f { a = update f.a 0 x }) (record m { world = w }), false)
answered t m (some (leaves w)) = some (record m { world = w }, true)

unfoldable pub ecall : Env → Machine → Outcome
ecall env m =
    let t = m.world.kernel.active in
    let f = m.frame t in
    let m1 = set_frame t (record f { sepc = (f.sepc + 4) % 2 ^ 64 }) m in
    answered t m1 (syscall_dispatch env (f.a 7) (f.a 0) (f.a 1) (f.a 2) (f.a 3) m1.world)

abbrev pub after_exit : Machine → Option (World × Bool) → Outcome
after_exit m none = none
after_exit m (some (w, switched)) = some (record m { world = w }, switched)

-- The task ends with -1, which is kept in a byte.
unfoldable pub segfault : Machine → Outcome
segfault m = after_exit m (exit_task 255 m.world)

abbrev pub faulted : Machine → Call → Outcome
faulted m none = none
faulted m (some (ok n, pages)) = some (record m { world = set_pages m.world pages }, false)
faulted m (some (err e, pages)) = segfault (record m { world = set_pages m.world pages })

unfoldable pub store_fault : (stval : ℕ) → Machine → Outcome
store_fault stval m =
    let w = m.world in
    faulted m (vpage_handle_cow (w.space w.kernel.active).root_ptable stval w.pages)

-- `ECALL_UMODE`, `STORE_PAGE_FAULT`, `LOAD_PAGE_FAULT` and `INSTRUCTION_PAGE_FAULT`
unfoldable pub exception : Env → (scause stval : ℕ) → Machine → Outcome
exception env scause stval m =
    if scause == 8
    then ecall env m
    else if scause == 15
    then store_fault stval m
    else if scause == 13
    then segfault m
    else if scause == 12
    then segfault m
    else none

-- With no switch the task goes on in user mode, as its frame says.
unfoldable pub usertrap : Env → Semaphores → (claimed stval : ℕ) → Machine → Outcome
usertrap env sems claimed stval m =
    let scause = (m.frame m.world.kernel.active).scause in
    if leb (2 ^ 63) scause
    then handler_async_irq sems claimed (scause - 2 ^ 63) m
    else exception env scause stval m
