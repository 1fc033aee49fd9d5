-- ===== src/Platform/Uart.antt =====
-- platform/qemu-virt-sbi: what the drivers read from the device tree (fdt_helper.c), and the settings of
-- the UART (uart_16550.c). The tree library is not modelled: a property of a node is the list of
-- its 32-bit cells, and none if the node or the property is missing.
pub mod Settings
use ccos.Common.{
  ℕ, ◌+◌, Bool, true, false, ◌||◌, Option, none, some, List, [], ◌∷◌, ◌==◌, if◌then◌else◌, ◌*◌, ◌^◌,
  ◌%◌,
}

-- The base and the size, if there are four cells.
pub fdt_find_reg_by_compat : (reg : Option (List ℕ)) → Option (ℕ × ℕ)
fdt_find_reg_by_compat none = none
fdt_find_reg_by_compat (some []) = none
fdt_find_reg_by_compat (some (a ∷ [])) = none
fdt_find_reg_by_compat (some (a ∷ b ∷ [])) = none
fdt_find_reg_by_compat (some (a ∷ b ∷ c ∷ [])) = none
fdt_find_reg_by_compat (some (a ∷ b ∷ c ∷ d ∷ cells)) = some (a * 2 ^ 32 + b, c * 2 ^ 32 + d)

-- The first cell.
pub fdt_find_irq_by_compat : (interrupts : Option (List ℕ)) → Option ℕ
fdt_find_irq_by_compat none = none
fdt_find_irq_by_compat (some []) = none
fdt_find_irq_by_compat (some (irq ∷ cells)) = some irq

-- `uart_base`, `uart_irq`, `uart_reg_shift`, `uart_reg_io_width` and `uart_reg_offset`.
pub record Uart : Type 0 where
  pub base : ℕ
  pub irq : ℕ
  pub reg_shift : ℕ
  pub reg_io_width : ℕ
  pub reg_offset : ℕ

abbrev pub uart_reg_addr : (reg_index : ℕ) → Uart → ℕ
uart_reg_addr reg_index u = (u.base + u.reg_offset + reg_index * 2 ^ u.reg_shift) % 2 ^ 64

-- The node of the UART.
pub record UartNode : Type 0 where
  pub reg : Option (List ℕ)
  pub interrupts : Option (List ℕ)
  pub shift : Option (List ℕ)
  pub io_width : Option (List ℕ)
  pub offset : Option (List ℕ)

-- The first cell of a property, or what the setting was.
abbrev pub cell_or : (old : ℕ) → Option (List ℕ) → ℕ
cell_or old none = old
cell_or old (some []) = old
cell_or old (some (w ∷ cells)) = w

pub io_width_of : (old : ℕ) → Option (List ℕ) → ℕ
io_width_of old none = old
io_width_of old (some []) = old
io_width_of old (some (w ∷ cells)) = if w == 1 || w == 2 || w == 4 then w else old

unfoldable pub uart16550_parse_dt_params : UartNode → Uart → Uart
uart16550_parse_dt_params t u = record u {
  reg_shift = cell_or u.reg_shift t.shift;
  reg_io_width = io_width_of u.reg_io_width t.io_width;
  reg_offset = cell_or u.reg_offset t.offset;
}

-- The settings, and whether the interrupt for received data has been enabled in the device.
unfoldable pub uart16550_init : UartNode → Uart → Uart × Bool
uart16550_init t u = elim (fdt_find_reg_by_compat t.reg) [
  | none ↦ (u, false)
  | some place ↦ elim (fdt_find_irq_by_compat t.interrupts) [
    | none ↦ (u, false)
    | some irq ↦ (uart16550_parse_dt_params t (record u { base = place.0; irq = irq }), true)
  ]
]

abbrev pub uart16550_get_irq : Uart → ℕ
uart16550_get_irq u = u.irq
