-- ===== src/Thread/Irq.antt =====
-- kernel/sched.c: the timer interrupt and the inter-processor interrupt. The timer itself, which
-- the first arms again, and the pending bit, which the second clears, are hardware outside the model.
pub mod Sound
pub mod Turns
use ccos.Common.{ℕ, ◌+◌, ◌-◌, false, ◌==◌, if◌then◌else◌, ◌%◌, ◌^◌}
use ccos.Kernel.{sched_slice_ticks, TfPtr}
use ccos.Kernel.Run.{done, Cmd, pure, ◌>>=◌, ◌>>◌, get, when, edit_cpu}
use ccos.Thread.Switch.{threads_tick}
use ccos.Thread.Syscalls.{reschedule}

-- A time slice that is used up ends in `schedule`.
pub end_slice : ℕ → TfPtr → Cmd (Unit {0})
end_slice self tf k =
    if (k.cpus self).slice_left == 0
    then (do
      edit_cpu self λ c. record c { slice_left = sched_slice_ticks; need_resched = false }
      reschedule self tf)
        k
    else done tt k

-- The slice is counted down to 0 and no further, as ◌-◌ does.
pub sched_on_timer_irq : ℕ → TfPtr → Cmd (Unit {0})
unfolding end_slice
sched_on_timer_irq self tf = do
  edit_cpu self λ c. record c { timer_irqs = (c.timer_irqs + 1) % 2 ^ 64 }
  k ← get
  when ((k.cpus self).hartid == k.boot_hartid) (threads_tick self)
  edit_cpu self λ c. record c { slice_left = c.slice_left - 1 }
  end_slice self tf

pub sched_on_ipi_irq : ℕ → TfPtr → Cmd (Unit {0})
sched_on_ipi_irq self tf = do
  edit_cpu self λ c. record c { need_resched = false }
  reschedule self tf
