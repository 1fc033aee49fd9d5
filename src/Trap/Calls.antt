-- ===== src/Trap/Calls.antt =====
-- Every system call of kernel/trap.c leaves a sound kernel.
use ccos.Common.{
  ℕ, ◌+◌, ◌≤◌, ◌<◌, ◌≡◌, refl, sym, ◌∙◌, inl, inr, none, some, arith, Option-cases, ◌%◌, ◌^◌,
}
use ccos.Kernel.{max_harts, Tid, Trapframe, frame_of, Kernel, set_thread}
use ccos.Kernel.Run.{done, Cmd, pure, ◌>>=◌, return_a0}
use ccos.Console.{Ring}
use ccos.Platform.{IrqTable}
use ccos.Sysfile.{ReadResult}
use ccos.Sysfile.Read.{sys_read-ends}
use ccos.Trap.{
  Outside, to_int, to_tid, Syscall, sys_sleep, sys_thread_exit, sys_thread_join, sys_thread_create,
  sys_write_call, sys_read_call, sys_thread_list, sys_thread_kill, sys_clock, sys_irq_stats,
  sys_get_hartid, sys_yield, sys_thread_detach, sys_runqueues, sys_unknown, syscall_of,
  syscall_handler, run_syscall, finish_read,
}
use ccos.Thread.Syscalls.{
  thread_sys_sleep, thread_sys_yield, thread_sys_create, thread_sys_exit, thread_sys_join,
  thread_sys_detach,
}
use ccos.Thread.Kill.Sound.{IsKillable, thread_sys_kill-IsSound}
use ccos.Thread.Invariant.{IsSound}
use ccos.Thread.Wake.{set_thread-Inv}
use ccos.Thread.Recycle.{return_a0-IsSound}
use ccos.Thread.Syscalls.Sleep.{thread_sys_sleep-IsSound, thread_sys_yield-IsSound}
use ccos.Thread.Syscalls.Exit.{thread_sys_exit-IsSound}
use ccos.Thread.Syscalls.Join.{IsGone, thread_sys_join-IsSound, thread_sys_detach-IsSound}
use ccos.Thread.Syscalls.Create.{thread_sys_create-IsSound}
use ccos.Thread.Kill.{thread_sys_kill}

-- The exit of `cur` is in order: it is not idle, and nothing is wrong with its joiner.
abbrev pub MayExit : Kernel → ℕ → Type 0
MayExit k cur = (max_harts ≤ cur) × IsKillable k (some cur)

-- What a call asks of the kernel: it is a known call, and does not touch a dead thread that a hart
-- still runs.
unfoldable pub IsCallable : Kernel → ℕ → Trapframe → Syscall → Type 0
IsCallable k cur f sys_sleep = Unit {0}
IsCallable k cur f sys_thread_exit = MayExit k cur
IsCallable k cur f sys_thread_join = IsGone k (to_tid f.a1)
IsCallable k cur f sys_thread_create = Unit {0}
IsCallable k cur f sys_write_call = Unit {0}
IsCallable k cur f sys_read_call = Unit {0}
IsCallable k cur f sys_thread_list = Unit {0}
IsCallable k cur f sys_thread_kill = IsKillable k (to_tid f.a1)
IsCallable k cur f sys_clock = Unit {0}
IsCallable k cur f sys_irq_stats = Unit {0}
IsCallable k cur f sys_get_hartid = Unit {0}
IsCallable k cur f sys_yield = Unit {0}
IsCallable k cur f sys_thread_detach = IsGone k (to_tid f.a1)
IsCallable k cur f sys_runqueues = Unit {0}
IsCallable k cur f sys_unknown = ⊥

-- The kernel once the frame of `cur` has been changed.
abbrev pub framed : ℕ → Trapframe → Kernel → Kernel
framed cur f k = set_thread cur (record (k.threads cur) { tf = f }) k

pub framed-IsSound : (cur : ℕ) (f : Trapframe) {k : Kernel} → IsSound k → IsSound (framed cur f k)
framed-IsSound cur f (q, own, v) = (
  q,
  own,
  set_thread-Inv cur _ v
      (record { state = refl; on_rq = refl; running_hart = refl; rq_next = refl }),
)

module _ (cur : ℕ) (f : Trapframe) (k : Kernel) where
  framed-state : (t : ℕ) → ((framed cur f k).threads t).state ≡ (k.threads t).state
  framed-state t = ground arith

  framed-IsGone : (o : Tid) → IsGone k o → IsGone (framed cur f k) o
  framed-IsGone none gone = tt
  framed-IsGone (some t) gone = λ z. gone (sym (framed-state t) ∙ z)

  pub framed-IsKillable : (o : Tid) → IsKillable k o → IsKillable (framed cur f k) o
  framed-IsKillable none ok = tt
  framed-IsKillable (some t) ok = λ j e.
      let same_joiner : ((framed cur f k).threads t).join_waiter ≡ (k.threads t).join_waiter =
        ground arith in
      let (apart, gone) = ok j (sym same_joiner ∙ e) in
      (apart, λ z. gone (sym (framed-state j) ∙ z))

  framed-IsCallable :
      (g : Trapframe) (s : Syscall) → IsCallable k cur g s → IsCallable (framed cur f k) cur g s
  unfolding IsCallable
  framed-IsCallable g sys_sleep ok = tt
  framed-IsCallable g sys_thread_exit ok = (ok.0, framed-IsKillable (some cur) ok.1)
  framed-IsCallable g sys_thread_join ok = framed-IsGone (to_tid g.a1) ok
  framed-IsCallable g sys_thread_create ok = tt
  framed-IsCallable g sys_write_call ok = tt
  framed-IsCallable g sys_read_call ok = tt
  framed-IsCallable g sys_thread_list ok = tt
  framed-IsCallable g sys_thread_kill ok = framed-IsKillable (to_tid g.a1) ok
  framed-IsCallable g sys_clock ok = tt
  framed-IsCallable g sys_irq_stats ok = tt
  framed-IsCallable g sys_get_hartid ok = tt
  framed-IsCallable g sys_yield ok = tt
  framed-IsCallable g sys_thread_detach ok = framed-IsGone (to_tid g.a1) ok
  framed-IsCallable g sys_runqueues ok = tt
  framed-IsCallable g sys_unknown ok = ok

-- A command that ends in a sound kernel.
abbrev pub Ends : {A : Type 0} → Kernel → Cmd A → Type 0
Ends {A} k m = (k' : Kernel) × (a : A) × (m k ≡ done a k') × IsSound k'

-- A call for its effect, then an answer.
pub Ends-answer :
    {A : Type 0} (k : Kernel) (m : Cmd (Unit {0})) (a : A)
    → ((k' : Kernel) × (m k ≡ done tt k') × IsSound k')
    → Ends k (m >>= λ _. pure a)
Ends-answer k m a (k', run, sound) = (k', a, rw run refl, sound)

module _ (self cur : ℕ) (lt : self < max_harts) where
  -- A call that only answers in a0.
  answers-Ends :
      {A : Type 0} (value : ℕ) (a : A) {k : Kernel}
      → IsSound k
      → Ends k (return_a0 (frame_of cur) value >>= λ _. pure a)
  answers-Ends value a {k} sound =
      Ends-answer k (return_a0 (frame_of cur) value) a (return_a0-IsSound cur value k sound)

  finish_read-IsSound :
      (res : ReadResult) {k : Kernel}
      → IsSound k
      → (k' : Kernel) × (finish_read (frame_of cur) res k ≡ done tt k') × IsSound k'
  unfolding finish_read
  finish_read-IsSound res {k} sound = elim (Option-cases res.value) [
    | inl e ↦ (k, rw e refl, sound)
    | inr (v, e) ↦
        let (k', run, sound') = return_a0-IsSound cur v k sound in (k', rw (e, run) refl, sound')
  ]

  run_syscall-Ends :
      (o : Outside) (f : Trapframe) (t : IrqTable) (s : Syscall) (r : Ring) {k : Kernel}
      → IsSound k
      → (k.cpus self).current_tid ≡ some cur
      → IsCallable k cur f s
      → Ends k (run_syscall o self (frame_of cur) f t s r)
  unfolding run_syscall IsCallable
  run_syscall-Ends o f t sys_sleep r {k} sound now ok =
      Ends-answer k (thread_sys_sleep self (frame_of cur) f.a1) r
        (thread_sys_sleep-IsSound self cur lt sound.2 now f.a1)
  run_syscall-Ends o f t sys_thread_exit r {k} sound now ok =
      Ends-answer k (thread_sys_exit self (frame_of cur) (to_int f.a1)) r
        (thread_sys_exit-IsSound self cur (to_int f.a1) lt sound.2 now ok.0 ok.1)
  run_syscall-Ends o f t sys_thread_join r {k} sound now ok =
      Ends-answer k (thread_sys_join self (frame_of cur) (to_tid f.a1) f.a2) r
        (thread_sys_join-IsSound self cur lt sound.2 now (to_tid f.a1) f.a2 ok)
  run_syscall-Ends o f t sys_thread_create r {k} sound now ok =
      let (k', run, sound', reg) =
        thread_sys_create-IsSound o.machine self lt cur f.a1 f.a2 (o.text_at f.a3) sound in
      Ends-answer k (thread_sys_create o.machine self (frame_of cur) f.a1 f.a2 (o.text_at f.a3)) r
        (k', run, sound')
  run_syscall-Ends o f t sys_write_call r {k} sound now ok = answers-Ends _ r sound
  run_syscall-Ends o f t sys_read_call r {k} sound now ok =
      let (k1, res, run, sound1) =
        sys_read-ends self cur (f.a1 % 2 ^ 32) f.a2 f.a3 r lt sound now in
      let (k2, end, sound2) = finish_read-IsSound res sound1 in
      (k2, res.ring, rw (run, end) refl, sound2)
  run_syscall-Ends o f t sys_thread_list r {k} sound now ok = answers-Ends _ r sound
  run_syscall-Ends o f t sys_thread_kill r {k} sound now ok =
      Ends-answer k (thread_sys_kill self (frame_of cur) (to_tid f.a1)) r
        (thread_sys_kill-IsSound self cur lt sound now (to_tid f.a1) ok)
  run_syscall-Ends o f t sys_clock r {k} sound now ok = answers-Ends _ r sound
  run_syscall-Ends o f t sys_irq_stats r {k} sound now ok = answers-Ends _ r sound
  run_syscall-Ends o f t sys_get_hartid r {k} sound now ok = answers-Ends _ r sound
  run_syscall-Ends o f t sys_yield r {k} sound now ok =
      Ends-answer k (thread_sys_yield self (frame_of cur)) r
        (thread_sys_yield-IsSound self cur lt sound.2 now)
  run_syscall-Ends o f t sys_thread_detach r {k} sound now ok =
      Ends-answer k (thread_sys_detach self (frame_of cur) (to_tid f.a1)) r
        (thread_sys_detach-IsSound self cur lt sound.2 now (to_tid f.a1) ok)
  run_syscall-Ends o f t sys_runqueues r {k} sound now ok = answers-Ends _ r sound
  run_syscall-Ends o f t sys_unknown r {k} sound now ok = absurd ok

  pub syscall_handler-Ends :
      (o : Outside) (t : IrqTable) (r : Ring) {k : Kernel}
      → IsSound k
      → (k.cpus self).current_tid ≡ some cur
      → IsCallable k cur (k.threads cur).tf (syscall_of (k.threads cur).tf.a0)
      → Ends k (syscall_handler o self (frame_of cur) t r)
  unfolding syscall_handler
  syscall_handler-Ends o t r {k} sound now ok =
      let f = (k.threads cur).tf in
      let next = record f { sepc = (f.sepc + 4) % 2 ^ 64 } in
      run_syscall-Ends o f t (syscall_of f.a0) r (framed-IsSound cur next sound) now
        (framed-IsCallable cur next k f (syscall_of f.a0) ok)
