-- ===== src/Thread/Irq/Sound.antt =====
-- The interrupts of kernel/sched.c keep the kernel sound.
use ccos.Common.{
  ℕ, ◌+◌, ◌-◌, ◌<◌, ◌≡◌, refl, ◌∙◌, inl, inr, false, some, List, arith, ◌==◌, Bool-cases, split_at,
  ◌%◌, ◌^◌,
}
use ccos.Kernel.{max_harts, sched_slice_ticks, Tid, frame_of, Cpu, Kernel, set_cpu}
use ccos.Kernel.Run.{done, when}
use ccos.Thread.Switch.{threads_tick}
use ccos.Thread.Irq.{sched_on_timer_irq, sched_on_ipi_irq, end_slice}
use ccos.Thread.Syscalls.{reschedule}
use ccos.Thread.Invariant.{Inv, IsSound, Inv-Leaving}
use ccos.Thread.Frame.{SameHart, SameHart-refl, Inv-cpus}
use ccos.Thread.Syscalls.Sleep.{reschedule-Inv}
use ccos.Thread.Switch.Tick.{threads_tick-wakes}

-- What an interrupt writes into the hart it strikes.
pub edit_cpu-Inv :
    (self : ℕ) (c : Cpu) (k : Kernel) {q : ℕ → List ℕ} {own : ℕ → Tid}
    → Inv k q own
    → SameHart (k.cpus self) c
    → Inv (set_cpu self c k) q own
edit_cpu-Inv self c k {q} {own} v s = Inv-cpus k (set_cpu self c k) q own v refl refl (
    split_at (λ h. SameHart (k.cpus h) ((set_cpu self c k).cpus h)) self
      (record {
        hartid = ground (arith, s.hartid);
        current = ground (arith, s.current);
        idle = ground (arith, s.idle);
        cur_tf = ground (arith, s.cur_tf);
      })
      (λ h ne. record {
        hartid = ground arith;
        current = ground arith;
        idle = ground arith;
        cur_tf = ground arith;
      }))

module _ (self cur : ℕ) (lt : self < max_harts) where
  -- The hart switches from the thread that it runs.
  reschedule-IsSound :
      {k : Kernel}
      → IsSound k
      → (k.cpus self).current_tid ≡ some cur
      → (k' : Kernel) × (reschedule self (frame_of cur) k ≡ done tt k') × IsSound k'
  reschedule-IsSound {k} (q, own, v) now =
      let (k', own', run, next, inv) = reschedule-Inv self cur lt (Inv-Leaving self cur v lt now) in
      (k', run, (_, own', inv))

  end_slice-IsSound :
      {k : Kernel}
      → IsSound k
      → (k.cpus self).current_tid ≡ some cur
      → (k' : Kernel) × (end_slice self (frame_of cur) k ≡ done tt k') × IsSound k'
  unfolding end_slice
  end_slice-IsSound {k} (q, own, v) now = elim (Bool-cases ((k.cpus self).slice_left == 0)) [
    | inl e ↦
        let c = record (k.cpus self) { slice_left = sched_slice_ticks; need_resched = false } in
        let v' =
          edit_cpu-Inv self c k v
            (record { hartid = refl; current = refl; idle = refl; cur_tf = refl }) in
        rw e (reschedule-IsSound (q, own, v') (ground arith))
    | inr e ↦ (k, rw e refl, (q, own, v))
  ]

  -- An inter-processor interrupt makes the hart switch threads, without a panic, in a sound kernel.
  pub sched_on_ipi_irq-IsSound :
      {k : Kernel}
      → IsSound k
      → (k.cpus self).current_tid ≡ some cur
      → (k' : Kernel) × (sched_on_ipi_irq self (frame_of cur) k ≡ done tt k') × IsSound k'
  unfolding sched_on_ipi_irq
  sched_on_ipi_irq-IsSound {k} (q, own, v) now =
      let v' =
        edit_cpu-Inv self (record (k.cpus self) { need_resched = false }) k v
          (record { hartid = refl; current = refl; idle = refl; cur_tf = refl }) in
      reschedule-IsSound (q, own, v') (ground arith)

  -- The part of the timer interrupt that the boot hart alone does.
  boot_tick-IsSound :
      {k : Kernel}
      → IsSound k
      → k.boot_hartid < max_harts
      → (k' : Kernel) × (when ((k.cpus self).hartid == k.boot_hartid) (threads_tick self) k
          ≡ done tt k')
        × IsSound k'
        × ((h : ℕ) → SameHart (k.cpus h) (k'.cpus h))
  boot_tick-IsSound {k} sound boot =
      let (k', run, sound', ticks, harts, woken) = threads_tick-wakes self sound boot in
      elim (Bool-cases ((k.cpus self).hartid == k.boot_hartid)) [
        | inl e ↦ (k', rw e run, sound', harts)
        | inr e ↦ (k, rw e refl, sound, λ h. SameHart-refl)
      ]

  -- A timer interrupt, on the boot hart or on another, at the end of a slice or before it, does not
  -- panic and keeps the kernel sound.
  pub sched_on_timer_irq-IsSound :
      {k : Kernel}
      → IsSound k
      → (k.cpus self).current_tid ≡ some cur
      → k.boot_hartid < max_harts
      → (k' : Kernel) × (sched_on_timer_irq self (frame_of cur) k ≡ done tt k') × IsSound k'
  unfolding sched_on_timer_irq
  sched_on_timer_irq-IsSound {k} (q, own, v) now boot =
      let c = record (k.cpus self) { timer_irqs = ((k.cpus self).timer_irqs + 1) % 2 ^ 64 } in
      let v1 =
        edit_cpu-Inv self c k v
          (record { hartid = refl; current = refl; idle = refl; cur_tf = refl }) in
      let (k2, tick, (q2, own2, v2), harts) = boot_tick-IsSound (q, own, v1) boot in
      let d = record (k2.cpus self) { slice_left = (k2.cpus self).slice_left - 1 } in
      let v3 =
        edit_cpu-Inv self d k2 v2
          (record { hartid = refl; current = refl; idle = refl; cur_tf = refl }) in
      let now2 : (k2.cpus self).current_tid ≡ some cur = (harts self).current ∙ ground arith in
      let (k', run, sound) = end_slice-IsSound (q2, own2, v3) (ground arith) in
      (k', rw (tick, run) refl, sound)
