-- ===== src/Runqueue/Snapshot.antt =====
-- `rq_snapshot`, `rq_len` and `rq_init_all` of kernel/runqueue.c.
use ccos.Common.{
  ℕ, zero, suc, ◌+◌, ◌≤◌, ◌<◌, ◌≡◌, refl, false, ◌&&◌, none, some, List, [], ◌∷◌, arith, ltb, leb,
  if◌then◌else◌, length, take, ap, inl, inr, Bool-cases, ◌∙◌,
}
use ccos.Kernel.{max_harts, Tid, Kernel}
use ccos.Runqueue.{rq_init, rq_init_all, rq_len, rq_snapshot, init_loop, walk, empty_rq}
use ccos.Runqueue.Links.{Links, IsQueue, Queues}

walk-take :
    (k : Kernel) (n : ℕ) (cur : Tid) (xs : List ℕ)
    → Links k.threads cur xs
    → walk n cur k ≡ take n xs
unfolding walk
walk-take k zero cur xs l = refl
walk-take k (suc n) cur [] l = rw l
walk-take k (suc n) cur (x ∷ xs) l = rw l.0 (rw (walk-take k n (k.threads x).rq_next xs l.1))

-- The snapshot of a queue is its first `max` threads, in order.
pub rq_snapshot-take :
    (k : Kernel) (h max : ℕ) (xs : List ℕ)
    → h < max_harts
    → 0 < max
    → IsQueue k h xs
    → rq_snapshot h max k ≡ some (take max xs)
unfolding rq_snapshot
rq_snapshot-take k h max xs lt room s =
    ground (arith, walk-take k max (k.runqueues h).head xs s.links)

pub rq_len-length :
    (k : Kernel) (h : ℕ) (xs : List ℕ) → h < max_harts → IsQueue k h xs → rq_len h k ≡ length xs
unfolding rq_len
rq_len-length k h xs lt s = ground (arith, s.len)

init_loop-empty :
    (n i h : ℕ) (k : Kernel)
    → i + n ≤ max_harts
    → (init_loop n i k).runqueues h ≡ (if leb i h && ltb h (i + n) then empty_rq else k.runqueues h)
unfolding init_loop rq_init
init_loop-empty zero i h k fits = ground arith
init_loop-empty (suc n) i h k fits =
    ground (arith, init_loop-empty n (suc i) h (rq_init i k) (omega arith))

init_loop-threads : (n i : ℕ) (k : Kernel) → (init_loop n i k).threads ≡ k.threads
unfolding init_loop rq_init
init_loop-threads zero i k = refl
init_loop-threads (suc n) i k = ground (arith, init_loop-threads n (suc i) (rq_init i k))

rq_init-others : (h : ℕ) (k : Kernel) → record (rq_init h k) { runqueues = k.runqueues } ≡ k
unfolding rq_init
rq_init-others h k = elim (Bool-cases (leb max_harts h)) [ inl e ↦ rw e refl | inr e ↦ rw e refl ]

init_loop-others : (n i : ℕ) (k : Kernel) → record (init_loop n i k) { runqueues = k.runqueues } ≡ k
unfolding init_loop
init_loop-others zero i k = refl
init_loop-others (suc n) i k =
    ap {A = Kernel} (λ l. record l { runqueues = k.runqueues })
      (init_loop-others n (suc i) (rq_init i k))
    ∙ rq_init-others i k

-- `rq_init_all` changes nothing but the queues.
pub rq_init_all-others : (k : Kernel) → record (rq_init_all k) { runqueues = k.runqueues } ≡ k
unfolding rq_init_all
rq_init_all-others k = init_loop-others max_harts 0 k

pub rq_init_all-empty :
    (k : Kernel) (h : ℕ) → h < max_harts → (rq_init_all k).runqueues h ≡ empty_rq
unfolding rq_init_all
rq_init_all-empty k h lt = ground (arith, init_loop-empty max_harts 0 h k (omega arith))

-- After `rq_init_all`, called while no thread is marked as queued, every queue is empty and well
-- formed.
pub rq_init_all-Queues :
    (k : Kernel)
    → ((t : ℕ) → (k.threads t).on_rq ≡ false)
    → Queues (rq_init_all k) (λ _. []) (λ _. none)
unfolding rq_init_all
rq_init_all-Queues k clear = record {
  each = λ h lt.
      let empty = init_loop-empty max_harts 0 h k (omega arith) in
      record {
        links = ground (arith, empty);
        tail = ground (arith, empty);
        len = ground (arith, empty);
        distinct = tt;
      };
  member = λ h t lt. refl;
  flagged = λ t. rw (init_loop-threads max_harts 0 k) (clear t);
  owned = λ t h e. absurd (ground arith);
}
