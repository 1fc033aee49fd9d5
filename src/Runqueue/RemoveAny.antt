-- ===== src/Runqueue/RemoveAny.antt =====
-- `rq_remove_any` of kernel/runqueue.c finds the queue that holds a thread.
use ccos.Common.{
  ℕ, zero, suc, ◌+◌, ◌≤◌, ◌<◌, ◌≡◌, refl, ap, inl, inr, true, none, some, List, arith, ◌==◌, ==_iff,
  Bool-cases, erase,
}
use ccos.Kernel.{max_harts, Tid, Kernel, update}
use ccos.Kernel.Run.{done}
use ccos.Runqueue.{rq_remove, rq_remove_any, any_loop}
use ccos.Runqueue.Links.{Queues, OnlyQueues}
use ccos.Runqueue.Remove.{rq_remove-erase, rq_remove-missing}

module _ (k : Kernel) (t : ℕ) {q : ℕ → List ℕ} {own : ℕ → Tid} (s : Queues k q own) where
  any_loop-missing : (n i : ℕ) → i + n ≤ max_harts → own t ≡ none → any_loop n i t k ≡ done none k
  unfolding any_loop
  any_loop-missing zero i fits away = refl
  any_loop-missing (suc n) i fits away = ground (
    arith,
    rq_remove-missing k i t s (omega arith) (ground arith),
    any_loop-missing n (suc i) (omega arith),
  )

  any_loop-found :
      (n i h : ℕ) (k' : Kernel)
      → i + n ≤ max_harts
      → i ≤ h
      → h < i + n
      → own t ≡ some h
      → rq_remove h (some t) k ≡ done true k'
      → any_loop n i t k ≡ done (some h) k'
  unfolding any_loop
  any_loop-found zero i h k' fits low high mine run = absurd (omega arith)
  any_loop-found (suc n) i h k' fits low high mine run = elim (Bool-cases (i == h)) [
    | inl e ↦ ground (arith, ap (λ j. rq_remove j (some t) k) ((==_iff i h).0 e))
    | inr ne ↦ ground (
      arith,
      rq_remove-missing k i t s (omega arith) (ground arith),
      any_loop-found n (suc i) h k' (omega arith) (ground arith) (omega arith) mine run,
    )
  ]

  -- A thread that is on some queue is taken out of it, whichever it is, and the result names the hart.
  pub rq_remove_any-erase :
      (h : ℕ)
      → own t ≡ some h
      → (k' : Kernel) × (rq_remove_any (some t) k ≡ done (some h) k')
        × Queues k' (update q h (erase t (q h))) (update own t none)
        × OnlyQueues k k'
  unfolding rq_remove_any
  rq_remove_any-erase h mine =
      let (small, real, fits) = s.owned t h mine in
      let (k', run, queues, only) = rq_remove-erase k h t s small mine in
      (
        k',
        ground (arith, any_loop-found max_harts 0 h k' (omega arith) (omega arith) small mine run),
        queues,
        only,
      )

  -- For a thread on no queue the result is -1, and nothing changes.
  pub rq_remove_any-missing : own t ≡ none → rq_remove_any (some t) k ≡ done none k
  unfolding rq_remove_any
  rq_remove_any-missing away = ground (arith, any_loop-missing max_harts 0 (omega arith) away)
