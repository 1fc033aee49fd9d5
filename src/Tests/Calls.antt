-- ===== src/Tests/Calls.antt =====
-- The theorems on system calls, on the creation of threads and on the start at concrete kernels.
use ccos.Common.{◌≤◌, ◌≡◌, refl, true, some, arith, ℤ, false}
use ccos.Kernel.{unused, runnable, null, frame_of, Kernel, Cpu}
use ccos.Kernel.Run.{done}
use ccos.Sched.{sched_pick_target_hart}
use ccos.Thread.Syscalls.{release_joiner, thread_sys_join}
use ccos.Thread.Invariant.{IsSound}
use ccos.Thread.Syscalls.Exit.Revive.{release_joiner-revives}
use ccos.Thread.Syscalls.Join.Early.{thread_sys_join-unsound}
use ccos.Sched.Pick.{sched_pick_target_hart-shortest}
use ccos.Tests.Samples.{free_slot, sample_cpu, sample}
use ccos.Tests.Busy.{busy, busy-Inv, busy-IsAway}
use ccos.Runqueue.{rq_len}

thread_sys_join-unsound_example :
    (k' : Kernel) × (thread_sys_join 0 (frame_of 4) (some 9) 0 busy ≡ done tt k')
    × ((k'.threads 9).state ≡ unused)
    × ((k'.cpus 2).current_tid ≡ some 9)
    × ¬ IsSound k'
thread_sys_join-unsound_example =
    thread_sys_join-unsound 0 4 2 9 0 busy refl (omega arith) (omega arith) (omega arith)
      (omega arith) refl refl refl refl

release_joiner-revives_example :
    (k' : Kernel) × (release_joiner 0 6 (ℤ.pos 1) busy ≡ done tt k')
    × ((k'.threads 6).state ≡ runnable)
    × ((k'.threads 6).on_rq ≡ true)
    × IsSound k'
release_joiner-revives_example =
    release_joiner-revives 0 6 (ℤ.pos 1) busy-Inv (omega arith) (omega arith) (omega arith) refl
      (busy-IsAway 6 (omega arith) (omega arith) (omega arith))

sched_pick_target_hart-shortest_example :
    ((busy.cpus (sched_pick_target_hart 0 busy)).online ≡ true)
    × (rq_len (sched_pick_target_hart 0 busy) busy ≤ rq_len 1 busy)
sched_pick_target_hart-shortest_example =
    sched_pick_target_hart-shortest busy 0 1 (omega arith) refl

-- The kernel as .bss has it: every `cpu_t` is zero, so that each hart seems to be hart 0 and to run thread 0.
abbrev zero_cpu : Cpu
zero_cpu = record (sample_cpu 0) {
  kstack_top = 0;
  cur_tf = null;
  hartid = 0;
  online = false;
  current_tid = some 0;
  idle_tid = some 0;
  timer_irqs = 0;
  ctx_switches = 0;
  need_resched = false;
  slice_left = 0;
}

abbrev cold : Kernel
cold = record sample { threads = free_slot; cpus = λ h. zero_cpu; smp_boot_done = false }
