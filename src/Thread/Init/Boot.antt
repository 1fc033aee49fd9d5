-- ===== src/Thread/Init/Boot.antt =====
-- The start of the kernel (kernel/main.c) leaves a sound kernel.
use ccos.Common.{ℕ, ◌≤◌, ◌<◌, ◌≡◌, ◌≢◌}
use ccos.Kernel.{Kernel}
use ccos.Cpu.Setup.{IsSetUp}

-- The rounds for the harts from `h` to below `last` have set up those that are not the boot hart, and have
-- changed nothing else.
record AreSetUp (boot h last : ℕ) (k k' : Kernel) : Type 0 where
  set_up : (g : ℕ) → h ≤ g → g < last → g ≢ boot → IsSetUp g (k'.cpus g)
  boot_hart : k'.cpus boot ≡ k.cpus boot
  before : (g : ℕ) → g < h → k'.cpus g ≡ k.cpus g
  threads : k'.threads ≡ k.threads
  runqueues : k'.runqueues ≡ k.runqueues
