-- ===== src/Cpu/Setup.antt =====
-- What `cpu_init_this_hart` of kernel/cpu.c sets up.
use ccos.Common.{ℕ, ◌<◌, ◌≡◌, refl, ◌≢◌, true, false, none, some, arith, leb}
use ccos.Kernel.{max_harts, null, Cpu, Kernel, Machine, set_cpu}
use ccos.Kernel.Run.{done}
use ccos.Cpu.{cpu_kstack_top, sched_init_this_hart, cpu_init_this_hart}

-- The hart knows its number and runs no thread.
pub record IsSetUp (h : ℕ) (c : Cpu) : Type 0 where
  pub hartid : c.hartid ≡ h
  pub stopped : c.current_tid ≡ none

-- Only the hart `h` has changed, and it is set up.
pub record SetsUp (h : ℕ) (k k' : Kernel) : Type 0 where
  pub here : IsSetUp h (k'.cpus h)
  pub others : (g : ℕ) → g ≢ h → k'.cpus g ≡ k.cpus g
  pub threads : k'.threads ≡ k.threads
  pub runqueues : k'.runqueues ≡ k.runqueues

abbrev set_up : Machine → ℕ → Kernel → Kernel
set_up m h k = sched_init_this_hart h (
    set_cpu h
      (record (k.cpus h) {
        hartid = h;
        kstack_top = cpu_kstack_top m h;
        cur_tf = null;
        idle_tid = some h;
        current_tid = none;
        timer_irqs = 0;
        ctx_switches = 0;
        online = true;
      })
      k)

-- A hart below MAX_HARTS sets itself up without a panic.
pub cpu_init_this_hart-SetsUp :
    (m : Machine) (h : ℕ) (k : Kernel)
    → h < max_harts
    → (k' : Kernel) × (cpu_init_this_hart m h k ≡ done tt k') × SetsUp h k k'
unfolding cpu_init_this_hart sched_init_this_hart
cpu_init_this_hart-SetsUp m h k lt =
    let fits : leb max_harts h ≡ false = ground arith in
    (
      set_up m h k,
      rw fits refl,
      record {
        here = record { hartid = ground arith; stopped = ground arith };
        others = λ g ne. ground arith;
        threads = refl;
        runqueues = refl;
      },
    )
