-- ===== src/Trap/Sound.antt =====
-- Every trap that kernel/trap.c handles leaves a sound kernel.
use ccos.Common.{ℕ, ◌+◌, ◌<◌, ◌≡◌, refl, inl, inr, true, false, some, ◌==◌, ℤ, Bool-cases, ◌%◌, ◌^◌}
use ccos.Kernel.{max_harts, Trapframe, TfPtr, frame_of, Kernel}
use ccos.Kernel.Run.{done}
use ccos.Platform.External.{platform_handle_s_external-Serves}
use ccos.Trap.{
  Probes, Devices, Outside, syscall_of, from_kernel, breakpoint_handler, Cause, irq_soft, irq_timer,
  irq_ext, exc_env_call_u, exc_breakpoint, exc_illegal_instr, unhandled, cause_of, trap_entry_c,
  handle_cause, wfi_probe,
}
use ccos.Thread.Irq.{sched_on_ipi_irq}
use ccos.Thread.Irq.Sound.{sched_on_ipi_irq-IsSound, sched_on_timer_irq-IsSound}
use ccos.Thread.Invariant.{IsSound}
use ccos.Thread.Syscalls.Exit.{thread_sys_exit-IsSound}
use ccos.Trap.Calls.{
  MayExit, IsCallable, framed, framed-IsSound, framed-IsKillable, Ends, Ends-answer,
  syscall_handler-Ends,
}

module _ (self cur : ℕ) (lt : self < max_harts) where
  -- The thread is ended after its breakpoint has been stepped over.
  breakpoint_handler-IsSound :
      {k : Kernel}
      → IsSound k
      → (k.cpus self).current_tid ≡ some cur
      → (from_kernel (k.threads cur).tf ≡ false → MayExit k cur)
      → (k' : Kernel) × (breakpoint_handler self (frame_of cur) k ≡ done tt k') × IsSound k'
  unfolding breakpoint_handler
  breakpoint_handler-IsSound {k} sound now ok =
      let f = (k.threads cur).tf in
      let next = record f { sepc = (f.sepc + 4) % 2 ^ 64 } in
      let sound1 = framed-IsSound cur next sound in
      elim (Bool-cases (from_kernel f)) [
        | inl e ↦ (framed cur next k, rw e refl, sound1)
        | inr e ↦
            let (real, killable) = ok e in
            rw e (
              thread_sys_exit-IsSound self cur (ℤ.negsuc 0) lt sound1.2 now real
                (framed-IsKillable cur next k (some cur) killable))
      ]

-- What a trap asks of the kernel: that its cause is one that is handled, and what its handler asks.
unfoldable pub IsHandled : Kernel → ℕ → Trapframe → Probes → Cause → Type 0
IsHandled k cur f p irq_soft = Unit {0}
IsHandled k cur f p irq_timer = k.boot_hartid < max_harts
IsHandled k cur f p irq_ext = Unit {0}
IsHandled k cur f p exc_env_call_u = IsCallable k cur f (syscall_of f.a0)
IsHandled k cur f p exc_breakpoint = from_kernel f ≡ false → MayExit k cur
IsHandled k cur f p exc_illegal_instr =
    (from_kernel f ≡ true → p.illegal_enabled ≡ true) × (from_kernel f ≡ false → MayExit k cur)
IsHandled k cur f p unhandled = ⊥

module _ (o : Outside) (self cur : ℕ) (lt : self < max_harts) (d : Devices) {k : Kernel}
    (sound : IsSound k) (now : (k.cpus self).current_tid ≡ some cur) where
  abbrev frame : Trapframe
  frame = (k.threads cur).tf

  abbrev stepped : Trapframe
  stepped = record frame { sepc = (frame.sepc + 4) % 2 ^ 64 }

  timer-Ends :
      k.boot_hartid < max_harts → Ends k (handle_cause o self (frame_of cur) frame irq_timer d)
  unfolding handle_cause wfi_probe
  timer-Ends boot = elim (Bool-cases d.probes.wfi_enabled) [
    | inl probing ↦
        let d' = record d { probes = record d.probes { wfi_fired = true } } in
        elim (Bool-cases (frame.sepc == d.probes.wfi_pc)) [
          | inl here ↦
              (framed cur stepped k, d', rw (probing, here) refl, framed-IsSound cur stepped sound)
          | inr away ↦ (k, d', rw (probing, away) refl, sound)
        ]
    | inr quiet ↦
        let (k', run, sound') = sched_on_timer_irq-IsSound self cur lt sound now boot in
        (k', d, rw (quiet, run) refl, sound')
  ]

  illegal-Ends :
      (from_kernel frame ≡ true → d.probes.illegal_enabled ≡ true)
      → (from_kernel frame ≡ false → MayExit k cur)
      → Ends k (handle_cause o self (frame_of cur) frame exc_illegal_instr d)
  unfolding handle_cause
  illegal-Ends probing may = elim (Bool-cases (from_kernel frame)) [
    | inl inside ↦ (
      framed cur stepped k,
      record d { probes = record d.probes { illegal_hit = true } },
      rw (inside, probing inside) refl,
      framed-IsSound cur stepped sound,
    )
    | inr user ↦
        let (k', run, sound') =
          thread_sys_exit-IsSound self cur (ℤ.negsuc 0) lt sound.2 now (may user).0 (may user).1 in
        (k', d, rw (user, run) refl, sound')
  ]

  handle_cause-Ends :
      (c : Cause)
      → IsHandled k cur frame d.probes c
      → Ends k (handle_cause o self (frame_of cur) frame c d)
  unfolding handle_cause IsHandled
  handle_cause-Ends irq_soft ok =
      Ends-answer k (sched_on_ipi_irq self (frame_of cur)) d
        (sched_on_ipi_irq-IsSound self cur lt sound now)
  handle_cause-Ends irq_timer ok = timer-Ends ok
  handle_cause-Ends irq_ext ok =
      let (k', a, run, sound', harts, stats) =
        platform_handle_s_external-Serves self lt o.claims d.irqs d.ring k sound in
      (k', record d { irqs = a.0; ring = a.1 }, rw run refl, sound')
  handle_cause-Ends exc_env_call_u ok =
      let (k', r, run, sound') = syscall_handler-Ends self cur lt o d.irqs d.ring sound now ok in
      (k', record d { ring = r }, rw run refl, sound')
  handle_cause-Ends exc_breakpoint ok =
      Ends-answer k (breakpoint_handler self (frame_of cur)) d
        (breakpoint_handler-IsSound self cur lt sound now ok)
  handle_cause-Ends exc_illegal_instr ok = illegal-Ends ok.0 ok.1
  handle_cause-Ends unhandled ok = absurd ok

  -- In a sound kernel every trap with a cause that is handled ends without a panic or a fault in a
  -- sound kernel, and the frame that is restored next is that of the thread that the hart then runs.
  pub trap_entry_c-IsSound :
      IsHandled k cur (k.threads cur).tf d.probes (cause_of (k.threads cur).tf.scause)
      → (k' : Kernel) × (tf : TfPtr) × (d' : Devices) × (trap_entry_c o self (frame_of cur) d k
          ≡ done (tf, d') k')
        × IsSound k'
        × ((t : ℕ) → (k'.cpus self).current_tid ≡ some t → tf ≡ frame_of t)
  unfolding trap_entry_c
  trap_entry_c-IsSound ok =
      let (k', d', run, (q, own, v)) = handle_cause-Ends (cause_of frame.scause) ok in
      (
        k',
        (k'.cpus self).cur_tf,
        d',
        rw run refl,
        (q, own, v),
        λ t now'. (v.current self t lt now').cur_tf,
      )
