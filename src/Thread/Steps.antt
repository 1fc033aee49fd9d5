-- ===== src/Thread/Steps.antt =====
-- What the harts do to the kernel of kernel/thread.c and kernel/sched.c, one trap at a time: `Event`
-- names the traps, `Steps` is their interleaving on all harts, and every reachable kernel is sound.
-- The kernel's lock, which each trap holds while it runs, makes a trap one step.
use ccos.Common.{
  ℕ, ◌≤◌, ◌<◌, ◌≡◌, sym, ap, ◌∙◌, inl, inr, false, Option, some, List, arith, is_some, ℤ,
  Bool-cases,
}
use ccos.Kernel.{thread_max, max_harts, Tid, runnable, in_state, TfPtr, frame_of, Kernel, Machine}
use ccos.Kernel.Run.{Run, done, panicked, fault, out_of_fuel, Cmd}
use ccos.Thread.Switch.{thread_block, thread_wake}
use ccos.Thread.Irq.{sched_on_timer_irq, sched_on_ipi_irq}
use ccos.Thread.Irq.Sound.{sched_on_ipi_irq-IsSound, sched_on_timer_irq-IsSound}
use ccos.Thread.Syscalls.{
  thread_sys_sleep, thread_sys_yield, thread_sys_create, thread_sys_exit, thread_sys_join,
  thread_sys_detach,
}
use ccos.Thread.Kill.{thread_sys_kill}
use ccos.Thread.Kill.Sound.{IsKillable, thread_sys_kill-IsSound}
use ccos.Thread.Invariant.{IsSound}
use ccos.Thread.Switch.Tick.{thread_wake-IsSound}
use ccos.Thread.Switch.Block.{thread_block-IsSound}
use ccos.Thread.Syscalls.Sleep.{thread_sys_sleep-IsSound, thread_sys_yield-IsSound}
use ccos.Thread.Syscalls.Exit.{thread_sys_exit-IsSound}
use ccos.Thread.Syscalls.Join.{IsGone, thread_sys_join-IsSound, thread_sys_detach-IsSound}
use ccos.Thread.Syscalls.Create.{thread_sys_create-IsSound}
use mathlib.Core.Path.{subst}

pub data Event : Type 0 where
  timer : Event
  ipi : Event
  sleep : ℕ → Event
  yield : Event
  create : ℕ → ℕ → Option (List ℕ) → Event
  exit : ℤ → Event
  join : Tid → ℕ → Event
  detach : Tid → Event
  kill : Tid → Event
  block : Event
  wake : Tid → Event

unfoldable pub handle : Machine → ℕ → TfPtr → Event → Cmd (Unit {0})
handle m self tf timer = sched_on_timer_irq self tf
handle m self tf ipi = sched_on_ipi_irq self tf
handle m self tf (sleep ticks) = thread_sys_sleep self tf ticks
handle m self tf yield = thread_sys_yield self tf
handle m self tf (create entry arg name) = thread_sys_create m self tf entry arg name
handle m self tf (exit code) = thread_sys_exit self tf code
handle m self tf (join target p) = thread_sys_join self tf target p
handle m self tf (detach target) = thread_sys_detach self tf target
handle m self tf (kill target) = thread_sys_kill self tf target
handle m self tf block = thread_block self tf
handle m self tf (wake target) = thread_wake self target

-- What each event asks of the kernel when `cur` is the thread that it interrupts. An idle thread
-- does not exit, and the others are the conditions under which no dead thread is touched while a
-- hart still runs it.
unfoldable pub IsAllowed : Kernel → ℕ → Event → Type 0
IsAllowed k cur timer = k.boot_hartid < max_harts
IsAllowed k cur ipi = Unit {0}
IsAllowed k cur (sleep ticks) = Unit {0}
IsAllowed k cur yield = Unit {0}
IsAllowed k cur (create entry arg name) = Unit {0}
IsAllowed k cur (exit code) = (max_harts ≤ cur) × IsKillable k (some cur)
IsAllowed k cur (join target p) = IsGone k target
IsAllowed k cur (detach target) = IsGone k target
IsAllowed k cur (kill target) = IsKillable k target
IsAllowed k cur block = Unit {0}
IsAllowed k cur (wake target) = Unit {0}

-- In a sound kernel every allowed event, on whichever hart, is handled to its end, without a panic or
-- a fault, and leaves a sound kernel.
pub handle-IsSound :
    (m : Machine) (self cur : ℕ) (e : Event) {k : Kernel}
    → self < max_harts
    → IsSound k
    → (k.cpus self).current_tid ≡ some cur
    → IsAllowed k cur e
    → (k' : Kernel) × (handle m self (frame_of cur) e k ≡ done tt k') × IsSound k'
unfolding handle IsAllowed
handle-IsSound m self cur timer lt sound now ok =
    sched_on_timer_irq-IsSound self cur lt sound now ok
handle-IsSound m self cur ipi lt sound now ok = sched_on_ipi_irq-IsSound self cur lt sound now
handle-IsSound m self cur (sleep ticks) lt sound now ok =
    thread_sys_sleep-IsSound self cur lt sound.2 now ticks
handle-IsSound m self cur yield lt sound now ok = thread_sys_yield-IsSound self cur lt sound.2 now
handle-IsSound m self cur (create entry arg name) lt sound now ok =
    let (k', run, sound', reg) = thread_sys_create-IsSound m self lt cur entry arg name sound in
    (k', run, sound')
handle-IsSound m self cur (exit code) lt sound now ok =
    thread_sys_exit-IsSound self cur code lt sound.2 now ok.0 ok.1
handle-IsSound m self cur (join target p) lt sound now ok =
    thread_sys_join-IsSound self cur lt sound.2 now target p ok
handle-IsSound m self cur (detach target) lt sound now ok =
    thread_sys_detach-IsSound self cur lt sound.2 now target ok
handle-IsSound m self cur (kill target) lt sound now ok =
    thread_sys_kill-IsSound self cur lt sound now target ok
handle-IsSound m self cur block lt sound now ok =
    let (k', run, next, sound') = thread_block-IsSound self cur lt sound.2 now in (k', run, sound')
handle-IsSound m self cur (wake target) lt sound now ok =
    let (k', run, sound', harts) = thread_wake-IsSound self target sound lt in (k', run, sound')

-- One trap of the hart `self`, which runs `cur`.
pub record Trapped (m : Machine) (self cur : ℕ) (e : Event) (k k' : Kernel) : Type 0 where
  pub lt : self < max_harts
  pub now : (k.cpus self).current_tid ≡ some cur
  pub allowed : IsAllowed k cur e
  pub run : handle m self (frame_of cur) e k ≡ done tt k'

-- Any number of traps, of any harts in any order.
pub data Steps (m : Machine) (k : Kernel) : Kernel → Type 0 where
  here : Steps m k k
  next :
      (self cur : ℕ) (e : Event) {l k' : Kernel}
      → Steps m k l
      → Trapped m self cur e l k'
      → Steps m k k'

result_of : Kernel → Run (Unit {0}) → Kernel
result_of d (done a k) = k
result_of d panicked = d
result_of d fault = d
result_of d out_of_fuel = d

Trapped-IsSound :
    {m : Machine} {self cur : ℕ} {e : Event} {k k' : Kernel}
    → Trapped m self cur e k k'
    → IsSound k
    → IsSound k'
unfolding result_of
Trapped-IsSound {m} {self} {cur} {e} {k} t sound =
    let (l, run, sound') = handle-IsSound m self cur e t.lt sound t.now t.allowed in
    subst IsSound (ap (result_of k) (sym run ∙ t.run)) sound'

-- Allowed events of any harts, in any order and number, keep a sound kernel sound.
pub Steps-IsSound : {m : Machine} {k k' : Kernel} → Steps m k k' → IsSound k → IsSound k'
Steps-IsSound here sound = sound
Steps-IsSound (next self cur e steps t) sound = Trapped-IsSound t (Steps-IsSound steps sound)

-- In a kernel that allowed events reach from a sound one, no thread is the current thread of two
-- harts.
pub Steps-exclusive :
    {m : Machine} {k k' : Kernel}
    → Steps m k k'
    → IsSound k
    → (g h t : ℕ) → g < max_harts
    → h < max_harts
    → (k'.cpus g).current_tid ≡ some t
    → (k'.cpus h).current_tid ≡ some t
    → g ≡ h
Steps-exclusive {k' = k'} steps sound g h t gl hl on_g on_h =
    let (q, own, v) = Steps-IsSound steps sound in
    ground (arith, (v.current g t gl on_g).running_hart, (v.current h t hl on_h).running_hart)

-- In a kernel that allowed events reach from a sound one, a thread that is not idle is marked as
-- queued just when it is RUNNABLE, and not while a hart runs it.
pub Steps-queued :
    {m : Machine} {k k' : Kernel}
    → Steps m k k'
    → IsSound k
    → (t : ℕ) → max_harts ≤ t
    → t < thread_max
    → ((k'.threads t).on_rq ≡ in_state (k'.threads t).state runnable)
      × ((h : ℕ) → h < max_harts → (k'.cpus h).current_tid ≡ some t → (k'.threads t).on_rq ≡ false)
Steps-queued {k' = k'} steps sound t real fits =
    let (q, own, v) = Steps-IsSound steps sound in
    let r = v.ready t in
    (
      elim (Bool-cases (is_some (own t))) [
        | inl e ↦ ground (arith, v.queues.flagged t, r.runnable_of_queued e)
        | inr e ↦ elim (Bool-cases (in_state (k'.threads t).state runnable)) [
          | inl up ↦
              ground (arith, v.queues.flagged t, r.queued_of_runnable real fits (ground arith))
          | inr down ↦ ground (arith, v.queues.flagged t)
        ]
      ],
      λ h lt now. ground (arith, v.queues.flagged t, (v.current h t lt now).unqueued),
    )
