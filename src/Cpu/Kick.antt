-- ===== src/Cpu/Kick.antt =====
-- The interrupts that `smp_kick_hart` and `smp_kick_all_others` of kernel/cpu.c send.
use ccos.Common.{ℕ, zero, suc, ◌+◌, ◌<◌, ◌≡◌, ap, Bool, not, ◌&&◌, ◌||◌, arith, ltb, leb, ◌==◌, mem}
use ccos.Kernel.{max_harts, Kernel}
use ccos.Cpu.{cpu_current_hartid, smp_kick_hart, smp_kick_all_others, kick_loop, kick_one}

-- Kicking a hart changes nothing but the interrupts sent.
pub smp_kick_hart-ipis :
    (h : ℕ) (k : Kernel) → smp_kick_hart h k ≡ record k { ipis = (smp_kick_hart h k).ipis }
unfolding smp_kick_hart
smp_kick_hart-ipis h k = ground arith

-- Whether `smp_kick_all_others` interrupts hart `h`.
kicked : ℕ → Kernel → ℕ → Bool
kicked self k h = not (h == self) && (k.cpus h).online

kick_one-mem :
    (self i h : ℕ) (k : Kernel)
    → (mem h (kick_one self i k).ipis ≡ (mem h k.ipis || ((h == i) && kicked self k h)))
      × (kicked self (kick_one self i k) h ≡ kicked self k h)
unfolding kick_one kicked
kick_one-mem self i h k =
    (ground (arith, ap (λ j. (k.cpus j).online) {x = h} {y = i}), ground arith)

kick_loop-mem :
    (self n i h : ℕ) (k : Kernel)
    → mem h (kick_loop self n i k).ipis
      ≡ (mem h k.ipis || (leb i h && (ltb h (i + n) && kicked self k h)))
unfolding kick_loop
kick_loop-mem self zero i h k = ground arith
kick_loop-mem self (suc n) i h k =
    ground (arith, kick_loop-mem self n (suc i) h (kick_one self i k), kick_one-mem self i h k)

-- Once the other harts are up, `smp_kick_all_others` interrupts every hart that is online and is
-- not the caller, and no other; before that it interrupts none.
pub smp_kick_all_others-mem :
    (self h : ℕ) (k : Kernel)
    → h < max_harts
    → mem h (smp_kick_all_others self k).ipis ≡ (
        mem h k.ipis
        || (k.smp_boot_done && (not (h == cpu_current_hartid self k) && (k.cpus h).online)))
unfolding smp_kick_all_others kicked
smp_kick_all_others-mem self h k lt =
    ground (arith, kick_loop-mem (cpu_current_hartid self k) max_harts 0 h k)
