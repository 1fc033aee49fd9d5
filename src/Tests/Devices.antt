-- ===== src/Tests/Devices.antt =====
-- The theorems on the device drivers at the machine that QEMU emulates.
use ccos.Common.{◌≡◌, refl, true, Option, some, arith, ◌==◌, if◌then◌else◌}
use ccos.Platform.Plic.{PlicNode, Plic, plic_ensure_base, plic_init_s_mode}
use ccos.Platform.Plic.Enabled.{test_bit, is_enabled}
use ccos.Platform.Clock.{platform_rtc_read_ns}
use ccos.Platform.Clock.Exact.{platform_rtc_read_ns-exact}

abbrev virt_plic : Option PlicNode
virt_plic = some (record { base = 201326592; ndev = some 95 })

-- Before the first use, with source 33 of hart 0 left enabled by the firmware.
abbrev cold_plic : Plic
cold_plic = record { base = 0; num_sources = 0; regs = λ off. if off == 8324 then 2 else 0 }

still_enabled : is_enabled 0 33 (plic_init_s_mode 0 virt_plic cold_plic) ≡ true
unfolding is_enabled test_bit plic_init_s_mode plic_ensure_base
still_enabled = refl

-- 10 MHz, a second and a half.
platform_rtc_read_ns-exact_example : platform_rtc_read_ns 10000000 15000000 ≡ 1500000000
platform_rtc_read_ns-exact_example =
    platform_rtc_read_ns-exact 10000000 15000000 (omega arith) (omega arith) (omega arith)
