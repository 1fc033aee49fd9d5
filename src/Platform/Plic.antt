-- ===== src/Platform/Plic.antt =====
-- platform/qemu-virt-sbi/plic.c: the driver of the interrupt controller. Its registers are a function from
-- their offsets to 32-bit words that keeps what is written; what a read of the claim register answers
-- is an argument, and so is what the device tree says of the controller.
pub mod Enabled
use ccos.Common.{
  ℕ, zero, suc, ◌+◌, ◌-◌, Bool, not, ◌&&◌, Option, none, some, ltb, ◌==◌, if◌then◌else◌, ◌*◌, ◌%◌,
  ◌^◌, ◌/◌,
}
use ccos.Kernel.{update}

-- The base address and the number of sources, if the tree names one; none if there is no such node.
pub record PlicNode : Type 0 where
  pub base : ℕ
  pub ndev : Option ℕ

-- `plic_base` and `plic_num_sources`, and the registers.
pub record Plic : Type 0 where
  pub base : ℕ
  pub num_sources : ℕ
  pub regs : ℕ → ℕ

-- Offsets are `uint32_t`.
abbrev pub plic_senable_offset_for_hart : ℕ → ℕ
plic_senable_offset_for_hart hartid = (8320 + hartid * 2 * 128) % 2 ^ 32

abbrev pub plic_sthreshold_offset_for_hart : ℕ → ℕ
plic_sthreshold_offset_for_hart hartid = (2101248 + hartid * 2 * 4096) % 2 ^ 32

abbrev pub plic_sclaim_offset_for_hart : ℕ → ℕ
plic_sclaim_offset_for_hart hartid = (2101252 + hartid * 2 * 4096) % 2 ^ 32

abbrev pub w32 : (off v : ℕ) → Plic → Plic
w32 off v p = record p { regs = update p.regs off v }

abbrev pub sources_of : Option ℕ → ℕ
sources_of none = 32
sources_of (some n) = if ltb 0 n then n else 32

unfoldable pub plic_ensure_base : Option PlicNode → Plic → Plic
plic_ensure_base node p = if not (p.base == 0) then p else elim node [
  | none ↦ p
  | some n ↦ record p { base = n.base; num_sources = sources_of n.ndev }
]

unfoldable pub plic_init_s_mode : (hartid : ℕ) → Option PlicNode → Plic → Plic
plic_init_s_mode hartid node p =
    let p' = plic_ensure_base node p in
    if p'.base == 0
    then p'
    else w32 (plic_senable_offset_for_hart hartid) 0
        (w32 (plic_sthreshold_offset_for_hart hartid) 0 p')

unfoldable pub plic_set_priority : (irq prio : ℕ) → Option PlicNode → Plic → Plic
plic_set_priority irq prio node p =
    let p' = plic_ensure_base node p in
    if irq == 0 then p else if p'.base == 0 then p' else w32 (4 * irq % 2 ^ 32) prio p'

-- `n | (1u << b)` and `n & ~(1u << b)`, from the lowest bit on.
pub set_bit : (b n : ℕ) → ℕ
set_bit zero n = if n % 2 == 0 then n + 1 else n
set_bit (suc b) n = n % 2 + 2 * set_bit b (n / 2)

pub clear_bit : (b n : ℕ) → ℕ
clear_bit zero n = if n % 2 == 0 then n else n - 1
clear_bit (suc b) n = n % 2 + 2 * clear_bit b (n / 2)

-- `en_off + 4u * (irq / 32u)`
abbrev pub word_off : (hartid irq : ℕ) → ℕ
word_off hartid irq = (plic_senable_offset_for_hart hartid + 4 * (irq / 32)) % 2 ^ 32

-- The source is none, or is not one of the controller's.
abbrev pub is_no_source : ℕ → Plic → Bool
is_no_source irq p = not (p.num_sources == 0) && ltb p.num_sources irq

unfoldable pub plic_enable_irq : (hartid irq : ℕ) → Option PlicNode → Plic → Plic
plic_enable_irq hartid irq node p =
    let p' = plic_ensure_base node p in
    let off = word_off hartid irq in
    if irq == 0
    then p
    else if p'.base == 0
    then p'
    else if is_no_source irq p'
    then p'
    else w32 off (set_bit (irq % 32) (p'.regs off)) p'

unfoldable pub plic_disable_irq : (hartid irq : ℕ) → Option PlicNode → Plic → Plic
plic_disable_irq hartid irq node p =
    let p' = plic_ensure_base node p in
    let off = word_off hartid irq in
    if irq == 0
    then p
    else if p'.base == 0
    then p'
    else if is_no_source irq p'
    then p'
    else w32 off (clear_bit (irq % 32) (p'.regs off)) p'

-- `device` is what a read at an offset answers.
pub plic_claim : (hartid : ℕ) (device : ℕ → ℕ) → Option PlicNode → Plic → ℕ × Plic
plic_claim hartid device node p =
    let p' = plic_ensure_base node p in
    if p'.base == 0 then (0, p') else (device (plic_sclaim_offset_for_hart hartid), p')

pub plic_complete : (hartid irq : ℕ) → Option PlicNode → Plic → Plic
plic_complete hartid irq node p =
    let p' = plic_ensure_base node p in
    if irq == 0
    then p
    else if p'.base == 0
    then p'
    else w32 (plic_sclaim_offset_for_hart hartid) irq p'
