-- ===== src/Plic.antt =====
-- The interrupt controller, src/arch/plic.c: the addresses of its registers, and what is written to
-- them. The registers are words by address; what a claim gives is the controller's, a parameter, and
-- so are the handlers of the devices. The enable bit of the processor is left out.
use Prim.Native.Nat.{bit_or}
use rv_mini_os.Prelude.{ℕ, ◌+◌, ◌*◌, ◌/◌, ◌%◌, ◌^◌, ◌==◌, ltb, if◌then◌else◌, update}

abbrev pub Registers : Type 0
Registers = ℕ → ℕ

-- `PLIC_MMIO_BASE`
abbrev pub plic_base : ℕ
plic_base = 201326592

unfoldable pub get_context : ℕ
get_context = 1

unfoldable pub priority_reg : ℕ → ℕ
priority_reg irq_id = plic_base + 4 * irq_id % 2 ^ 32

unfoldable pub enable_reg : (ctx irq_id : ℕ) → ℕ
enable_reg ctx irq_id = plic_base + 8192 + 128 * ctx % 2 ^ 32 + 4 * (irq_id / 32)

unfoldable pub threshold_reg : ℕ → ℕ
threshold_reg ctx = plic_base + 2097152 + 4096 * ctx % 2 ^ 32

unfoldable pub claim_complete_reg : ℕ → ℕ
claim_complete_reg ctx = threshold_reg ctx + 4

-- at most 7
abbrev pub clamp : ℕ → ℕ
clamp n = if ltb 7 n then 7 else n

unfoldable pub plic_set_pty : (irq_id priority : ℕ) → Registers → Registers
plic_set_pty irq_id priority r = update r (priority_reg irq_id) (clamp priority)

unfoldable pub set_priority_treshold : (threshold : ℕ) → Registers → Registers
set_priority_treshold threshold r = update r (threshold_reg get_context) (clamp threshold)

unfoldable pub plic_init : Registers → Registers
plic_init r = set_priority_treshold 0 r

unfoldable pub plic_enable_irq : (irq_id priority : ℕ) → Registers → Registers
plic_enable_irq irq_id priority r =
    let reg = enable_reg get_context irq_id in
    plic_set_pty irq_id priority (update r reg (bit_or (r reg) (2 ^ (irq_id % 32))))

unfoldable pub complete_plic : (irq : ℕ) → Registers → Registers
complete_plic irq r = update r (claim_complete_reg get_context) irq

-- `UART_PLIC_ID` is 10 and `VIRTIO_BLK_PLIC_ID` 33; `S` is what the handlers work on.
unfoldable pub plic_handle_irq :
    {S : Type 0} (uart_irq_handler virtio_irq_handler : S → S) (claimed : ℕ)
    → S
    → Registers
    → S × Registers
plic_handle_irq uart virtio claimed s r = (
  (if claimed == 10 then uart s else if claimed == 33 then virtio s else s),
  complete_plic claimed r,
)
