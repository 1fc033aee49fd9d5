-- ===== src/Thread/Recycle.antt =====
-- Recycling a thread, and writing a system call's result (kernel/thread.c), keep the kernel sound.
use ccos.Common.{ℕ, ◌≡◌, refl, inl, inr, true, List, arith, Option-cases}
use ccos.Kernel.{Tid, zombie, frame_of, Kernel, set_thread}
use ccos.Kernel.Run.{done, return_a0}
use ccos.Thread.{recycled, recycle_thread, at_rest}
use ccos.Thread.Invariant.{Inv, IsSound, IsAway}
use ccos.Thread.Frame.{Inv-thread}
use ccos.Thread.Wake.{set_thread-Inv}

-- Writing the result into the caller's frame.
pub return_a0-IsSound :
    (cur value : ℕ) (k : Kernel)
    → IsSound k
    → (k' : Kernel) × (return_a0 (frame_of cur) value k ≡ done tt k') × IsSound k'
return_a0-IsSound cur value k (q, own, v) = (
  _,
  refl,
  (
    q,
    own,
    set_thread-Inv cur _ v
        (record { state = refl; on_rq = refl; running_hart = refl; rq_next = refl }),
  ),
)

-- A thread that rests, and is dead, can be recycled.
pub recycle_thread-Inv :
    (t : ℕ) {k : Kernel} {q : ℕ → List ℕ} {own : ℕ → Tid}
    → Inv k q own
    → at_rest (k.threads t) ≡ true
    → Inv (recycle_thread t k) q own
unfolding recycle_thread recycled
recycle_thread-Inv t {k} {q} {own} v rest =
    Inv-thread t k (recycle_thread t k) q own v (λ a ne. ground arith) (ground arith) (ground arith)
      (ground arith) (λ o. ground (arith, v.queues.flagged t)) (ground arith)
      (record {
        runnable_of_queued = λ o. ground (arith, v.queues.flagged t);
        queued_of_runnable = λ r f e. ground (arith, (v.ready t).queued_of_runnable);
      })
      (λ h r. ground (arith, r.running_hart, r.state)) (λ e. ground (arith, v.busy t))

-- A change of `join_waiter` alone.
pub join_waiter-Inv :
    (t : ℕ) (w : Tid) {k : Kernel} {q : ℕ → List ℕ} {own : ℕ → Tid}
    → Inv k q own
    → Inv (set_thread t (record (k.threads t) { join_waiter = w }) k) q own
join_waiter-Inv t w v =
    set_thread-Inv t _ v
      (record { state = refl; on_rq = refl; running_hart = refl; rq_next = refl })

-- A dead thread that no hart runs rests.
pub at_rest_of_zombie :
    (t : ℕ) {k : Kernel} {q : ℕ → List ℕ} {own : ℕ → Tid}
    → Inv k q own
    → (k.threads t).state ≡ zombie
    → IsAway k t
    → at_rest (k.threads t) ≡ true
at_rest_of_zombie t {k} v z away = elim (Option-cases (k.threads t).running_hart) [
  | inl e ↦ ground (arith, v.queues.flagged t, (v.ready t).runnable_of_queued)
  | inr (h, e) ↦ let (small, now) = v.placed t h e in absurd (away h small now)
]
