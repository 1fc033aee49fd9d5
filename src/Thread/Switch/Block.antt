-- ===== src/Thread/Switch/Block.antt =====
-- `thread_block` of kernel/thread.c keeps the kernel sound.
use ccos.Common.{ℕ, ◌<◌, ◌≡◌, refl, inl, some, List, arith}
use ccos.Kernel.{max_harts, Tid, blocked, frame_of, Kernel, set_thread}
use ccos.Kernel.Run.{done}
use ccos.Thread.Switch.{thread_block}
use ccos.Thread.Invariant.{Inv, IsSound, Leaving}
use ccos.Thread.Frame.{stopped-Leaving}
use ccos.Thread.Switch.Schedule.{first_or, queue_after, schedule-Inv}

-- The current thread becomes BLOCKED and the hart switches to the head of its queue, or to its idle
-- thread, without a panic, in a sound kernel.
pub thread_block-IsSound :
    (self cur : ℕ)
    → self < max_harts
    → {k : Kernel} {q : ℕ → List ℕ} {own : ℕ → Tid} → Inv k q own
    → (k.cpus self).current_tid ≡ some cur
    → (k' : Kernel) × (thread_block self (frame_of cur) k ≡ done tt k')
      × ((k'.cpus self).current_tid ≡ some (first_or self (q self)))
      × IsSound k'
unfolding thread_block
thread_block-IsSound self cur lt {k} {q} {own} v now =
    let k1 = set_thread cur (record (k.threads cur) { state = blocked }) k in
    let l : Leaving self cur k1 q own =
      stopped-Leaving self cur k k1 q own v lt now (λ a ne. ground arith) refl refl
        (ground (arith, v.queues.flagged cur, (v.current self cur lt now).unqueued))
        (inl (ground arith)) (λ e. ground arith) in
    let (k', own', run, next, inv) = schedule-Inv self cur lt l in
    let stays : queue_after k1 self cur (q self) ≡ q self = ground arith in
    (k', rw (now, run) refl, rw stays at next, (_, own', inv))
