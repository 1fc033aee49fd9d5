-- ===== src/Platform/Uart/Settings.antt =====
-- The width with which the driver of the UART (platform/qemu-virt-sbi/uart_16550.c) accesses registers.
use ccos.Common.{ℕ, ◌≡◌, ◌⊎◌, Bool, true, false, Option, none, some, List, [], ◌∷◌, arith}
use ccos.Platform.Uart.{
  fdt_find_reg_by_compat, fdt_find_irq_by_compat, Uart, UartNode, io_width_of,
  uart16550_parse_dt_params, uart16550_init,
}

-- A width that `uart_r` and `uart_w` know.
pub IsWidth : ℕ → Type 0
IsWidth w = (w ≡ 1) ⊎ ((w ≡ 2) ⊎ (w ≡ 4))

io_width_of-IsWidth : (old : ℕ) (o : Option (List ℕ)) → IsWidth old → IsWidth (io_width_of old o)
unfolding io_width_of IsWidth
io_width_of-IsWidth old none ok = ok
io_width_of-IsWidth old (some []) ok = ok
io_width_of-IsWidth old (some (w ∷ cells)) ok = ground arith

-- Whatever the device tree says, the width stays 1, 2 or 4.
pub uart16550_init-IsWidth :
    (t : UartNode) (u : Uart) → IsWidth u.reg_io_width → IsWidth (uart16550_init t u).0.reg_io_width
unfolding uart16550_init uart16550_parse_dt_params
uart16550_init-IsWidth t u ok =
    elim (fdt_find_reg_by_compat t.reg)
      as (λ r.
        IsWidth
          (elim r as (λ _. Uart × Bool) [
            | none ↦ (u, false)
            | some place ↦ elim (fdt_find_irq_by_compat t.interrupts) as (λ _. Uart × Bool) [
              | none ↦ (u, false)
              | some irq ↦
                  (uart16550_parse_dt_params t (record u { base = place.0; irq = irq }), true)
            ]
          ]).0.reg_io_width) [
            | none ↦ ok
            | some place ↦
                elim (fdt_find_irq_by_compat t.interrupts)
                  as (λ i.
                    IsWidth
                      (elim i as (λ _. Uart × Bool) [
                        | none ↦ (u, false)
                        | some irq ↦ (
                          uart16550_parse_dt_params t (record u { base = place.0; irq = irq }),
                          true,
                        )
                      ]).0.reg_io_width) [
                        | none ↦ ok
                        | some irq ↦ io_width_of-IsWidth u.reg_io_width t.io_width ok
                      ]
          ]
