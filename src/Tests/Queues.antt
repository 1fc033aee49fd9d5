-- ===== src/Tests/Queues.antt =====
-- The theorems on run queues and on `schedule` at the sample.
use ccos.Common.{ℕ, ◌≡◌, refl, true, none, some, [], ◌∷◌, arith}
use ccos.Kernel.{Tid, frame_of, Kernel, update}
use ccos.Kernel.Run.{done}
use ccos.Runqueue.{rq_push_tail, rq_remove}
use ccos.Runqueue.Links.{Queues, OnlyQueues}
use ccos.Runqueue.Push.{rq_push_tail-append}
use ccos.Runqueue.Remove.{rq_remove-erase}
use ccos.Thread.Invariant.{Inv, Inv-Leaving}
use ccos.Thread.Switch.{schedule}
use ccos.Thread.Switch.Schedule.{schedule-Inv}
use ccos.Thread.Irq.Turns.{timers, Waits, timers-served}
use ccos.Tests.Samples.{sample, sample_q, sample_own, sample-Queues, sample-Inv}

rq_push_tail-append_example :
    (k' : Kernel) × (rq_push_tail 0 (some 6) sample ≡ done tt k')
    × Queues k' (update sample_q 0 (4 ∷ 5 ∷ 6 ∷ [])) (update sample_own 6 (some 0))
    × OnlyQueues sample k'
rq_push_tail-append_example =
    rq_push_tail-append sample 0 6 sample-Queues (omega arith) (omega arith) (omega arith) refl

rq_remove-erase_example :
    (k' : Kernel) × (rq_remove 0 (some 5) sample ≡ done true k')
    × Queues k' (update sample_q 0 (4 ∷ [])) (update sample_own 5 none)
    × OnlyQueues sample k'
rq_remove-erase_example = rq_remove-erase sample 0 5 sample-Queues (omega arith) refl

schedule-Inv_example :
    (k' : Kernel) × (own' : ℕ → Tid) × (schedule 0 (frame_of 0) sample ≡ done (frame_of 4) k')
    × ((k'.cpus 0).current_tid ≡ some 4)
    × Inv k' (update sample_q 0 (5 ∷ [])) own'
schedule-Inv_example =
    schedule-Inv 0 0 (omega arith) (Inv-Leaving 0 0 sample-Inv (omega arith) refl)

-- Thread 5 is second on hart 0, the boot hart.
sample-Waits : Waits 0 5 1 0 sample
sample-Waits = record {
  q = sample_q;
  own = sample_own;
  inv = sample-Inv;
  now = refl;
  place = refl;
  boot = refl;
}

timers-served_example :
    (k' : Kernel) × (timers 0 10 sample ≡ done tt k') × ((k'.cpus 0).current_tid ≡ some 5)
timers-served_example = timers-served 0 5 1 0 sample (omega arith) sample-Waits (omega arith)
