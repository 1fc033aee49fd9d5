-- ===== src/Platform/Plic/Enabled.antt =====
-- Which interrupts the driver of platform/qemu-virt-sbi/plic.c enables.
use ccos.Common.{ℕ, zero, suc, ◌<◌, Bool, Option, ◌==◌, ◌%◌, ◌/◌}
use ccos.Kernel.{max_harts}
use ccos.Platform.Plic.{PlicNode, Plic, plic_ensure_base, word_off}

unfoldable pub test_bit : (b n : ℕ) → Bool
test_bit zero n = n % 2 == 1
test_bit (suc b) n = test_bit b (n / 2)

-- The enable bit of the source `i` for the hart `h`.
unfoldable pub is_enabled : (h i : ℕ) → Plic → Bool
is_enabled h i p = test_bit (i % 32) (p.regs (word_off h i))

module _ (hartid irq : ℕ) (plic_node : Option PlicNode) (p : Plic) (hart_fits : hartid < max_harts)
    (irq_fits : irq < 1024) where
  abbrev ready : Plic
  ready = plic_ensure_base plic_node p
