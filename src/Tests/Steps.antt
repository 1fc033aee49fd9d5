-- ===== src/Tests/Steps.antt =====
-- The theorems on steps, interrupts and the scheduler at the busy kernel.
use ccos.Common.{ℕ, ◌<◌, ◌≡◌, refl, false, some, arith}
use ccos.Kernel.{thread_max, max_harts, runnable, in_state, frame_of, Kernel}
use ccos.Kernel.Run.{done}
use ccos.Thread.Switch.{threads_tick}
use ccos.Thread.Syscalls.{thread_sys_yield}
use ccos.Thread.Steps.{
  yield, kill, handle, IsAllowed, handle-IsSound, Steps, here, next, Steps-IsSound, Steps-exclusive,
  Steps-queued,
}
use ccos.Thread.Switch.Tick.{state_after_tick, threads_tick-wakes}
use ccos.Thread.Syscalls.Sleep.{thread_sys_yield-Inv}
use ccos.Thread.Invariant.{IsSound}
use ccos.Thread.Frame.{SameHart}
use ccos.Tests.Busy.{machine, busy, busy-Inv, busy-IsSound}

handle-IsSound_example :
    (k' : Kernel) × (handle machine 0 (frame_of 4) (kill (some 8)) busy ≡ done tt k') × IsSound k'
unfolding IsAllowed
handle-IsSound_example =
    handle-IsSound machine 0 4 (kill (some 8)) (omega arith) busy-IsSound refl
      (λ j e. absurd (ground arith))

-- Hart 0 yields to thread 5.
Yielded : Kernel → Type 0
Yielded k' =
    (thread_sys_yield 0 (frame_of 4) busy ≡ done tt k') × ((k'.cpus 0).current_tid ≡ some 5)

yield-step : (k' : Kernel) × Yielded k'
unfolding Yielded
yield-step =
    let (k', own', run, now, inv) =
      thread_sys_yield-Inv 0 4 (omega arith) busy-Inv refl (omega arith) refl in
    (k', (run, now))

yield-Steps : {k' : Kernel} → Yielded k' → Steps machine busy k'
unfolding handle Yielded IsAllowed
yield-Steps (run, now) =
    next 0 4 yield here (record { lt = omega arith; now = refl; allowed = tt; run = run })

Steps-IsSound_example : IsSound yield-step.0
Steps-IsSound_example = Steps-IsSound (yield-Steps yield-step.1) busy-IsSound

Steps-exclusive_example : ◌≡◌ {A = ℕ} 0 0
unfolding Yielded
Steps-exclusive_example =
    Steps-exclusive (yield-Steps yield-step.1) busy-IsSound 0 0 5 (omega arith) (omega arith)
      yield-step.1.1 yield-step.1.1

Steps-queued_example :
    ((yield-step.0.threads 5).on_rq ≡ in_state (yield-step.0.threads 5).state runnable)
    × ((h : ℕ)
        → h < max_harts
        → (yield-step.0.cpus h).current_tid ≡ some 5
        → (yield-step.0.threads 5).on_rq ≡ false)
Steps-queued_example =
    Steps-queued (yield-Steps yield-step.1) busy-IsSound 5 (omega arith) (omega arith)

threads_tick-wakes_example :
    (k' : Kernel) × (threads_tick 0 busy ≡ done tt k')
    × IsSound k'
    × (k'.ticks ≡ 1)
    × ((h : ℕ) → SameHart (busy.cpus h) (k'.cpus h))
    × ((t : ℕ) → t < thread_max → (k'.threads t).state ≡ state_after_tick 1 t (busy.threads t))
threads_tick-wakes_example = threads_tick-wakes 0 busy-IsSound (omega arith)
