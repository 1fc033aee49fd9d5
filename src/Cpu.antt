-- ===== src/Cpu.antt =====
-- kernel/cpu.c and kernel/include/cpu.h: the harts' own state and interprocessor interrupts. `self`
-- is the hart that runs the code, whose `cpu_t` is `cpu_this()`; the error that SBI may report for
-- an interrupt is only logged, so it is no part of the model.
pub mod Kick
pub mod Setup
use ccos.Common.{
  ℕ, zero, suc, ◌+◌, true, false, not, none, some, ◌∷◌, leb, ◌==◌, if◌then◌else◌, ◌*◌,
}
use ccos.Kernel.{max_harts, kstack_size, sched_slice_ticks, null, Kernel, Machine, set_cpu}
use ccos.Kernel.Run.{done, panicked, Cmd}

abbrev pub cpu_current_hartid : ℕ → Kernel → ℕ
cpu_current_hartid self k = (k.cpus self).hartid

pub cpu_kstack_top : Machine → ℕ → ℕ
cpu_kstack_top m hartid = m.kstacks + (hartid + 1) * kstack_size

-- sched.c
pub sched_init_this_hart : ℕ → Kernel → Kernel
sched_init_this_hart self k =
    set_cpu self (record (k.cpus self) { need_resched = false; slice_left = sched_slice_ticks }) k

-- The hart becomes `self` of the code that follows, since `tp` is set to its entry.
pub cpu_init_this_hart : Machine → ℕ → Cmd (Unit {0})
unfolding cpu_kstack_top sched_init_this_hart
cpu_init_this_hart m hartid k =
    if leb max_harts hartid
    then panicked
    else done tt (
        sched_init_this_hart hartid (
          set_cpu hartid
            (record (k.cpus hartid) {
              hartid = hartid;
              kstack_top = cpu_kstack_top m hartid;
              cur_tf = null;
              idle_tid = some hartid;
              current_tid = none;
              timer_irqs = 0;
              ctx_switches = 0;
              online = true;
            })
            k))

unfoldable pub set_smp_boot_done : Kernel → Kernel
set_smp_boot_done k = record k { smp_boot_done = true }

send_ipi : ℕ → Kernel → Kernel
send_ipi hart k = record k { ipis = hart ∷ k.ipis }

pub smp_kick_hart : ℕ → Kernel → Kernel
unfolding send_ipi
smp_kick_hart hartid k =
    if not k.smp_boot_done
    then k
    else if leb max_harts hartid
    then k
    else if not (k.cpus hartid).online
    then k
    else send_ipi hartid k

-- The body of the loop at `hart`.
kick_one : ℕ → ℕ → Kernel → Kernel
unfolding send_ipi
kick_one self hart k =
    if hart == self then k else if not (k.cpus hart).online then k else send_ipi hart k

-- The rounds of the loop that are left; `hart` is its counter.
kick_loop : ℕ → ℕ → ℕ → Kernel → Kernel
kick_loop self zero hart k = k
kick_loop self (suc n) hart k = kick_loop self n (suc hart) (kick_one self hart k)

pub smp_kick_all_others : ℕ → Kernel → Kernel
unfolding kick_loop kick_one
smp_kick_all_others self k =
    if not k.smp_boot_done then k else kick_loop (cpu_current_hartid self k) max_harts 0 k
