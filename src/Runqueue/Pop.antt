-- ===== src/Runqueue/Pop.antt =====
-- `rq_pop_head` of kernel/runqueue.c takes the head of the hart's queue.
use ccos.Common.{ℕ, ◌<◌, ◌≡◌, ◌≢◌, false, none, some, List, [], ◌∷◌, arith, get_last?, mem}
use ccos.Kernel.{max_harts, Tid, Kernel, update}
use ccos.Kernel.Run.{done}
use ccos.Runqueue.{pop_from, rq_pop_head}
use ccos.Runqueue.Links.{
  Links-frame, IsQueue, Queues, OnlyQueues, each_update, own_of_mem, not-mem_of_own,
}

module _ (k : Kernel) (h x : ℕ) (xs : List ℕ) where
  pop_from_self : IsQueue k h (x ∷ xs) → IsQueue (pop_from h x k) h xs
  unfolding pop_from
  pop_from_self s = record {
    links = ground (
      arith,
      Links-frame k.threads (pop_from h x k).threads (k.threads x).rq_next xs
          (λ a m. ground (arith, s.distinct.0)),
    );
    tail = next-tail xs s;
    len = ground arith;
    distinct = s.distinct.1;
  }
    where
      next-tail :
          (ys : List ℕ) → IsQueue k h (x ∷ ys) → ((pop_from h x k).runqueues h).tail ≡ get_last? ys
      next-tail [] s = ground arith
      next-tail (y ∷ ys) s = ground arith

  pop_from-other :
      (g : ℕ) (ys : List ℕ)
      → g ≢ h
      → mem x ys ≡ false
      → IsQueue k g ys
      → IsQueue (pop_from h x k) g ys
  unfolding pop_from
  pop_from-other g ys ne out s = record {
    links = ground (
      arith,
      Links-frame k.threads (pop_from h x k).threads (k.runqueues g).head ys (λ a m. ground arith),
    );
    tail = ground arith;
    len = ground arith;
    distinct = s.distinct;
  }

  pop_from-OnlyQueues : OnlyQueues k (pop_from h x k)
  unfolding pop_from
  pop_from-OnlyQueues = record { threads = λ a. ground arith; others = ground arith }

  module _ {q : ℕ → List ℕ} {own : ℕ → Tid} (s : Queues k q own) (lt : h < max_harts)
      (first : q h ≡ x ∷ xs) where
    queue : IsQueue k h (x ∷ xs)
    queue = rw first at (s.each h lt)

    pub head-own : own x ≡ some h
    head-own = own_of_mem s h x lt (ground arith)

    pub pop_from-Queues : Queues (pop_from h x k) (update q h xs) (update own x none)
    unfolding pop_from
    pop_from-Queues = record {
      each = each_update (pop_from h x k) q h xs (pop_from_self queue) (λ g small ne.
          pop_from-other g (q g) ne (not-mem_of_own s g x (some h) small head-own (ground arith))
            (s.each g small));
      member = λ g a small. ground (arith, s.member g a small, head-own, queue.distinct.0);
      flagged = λ a. ground (arith, s.flagged a);
      owned = λ a g e. ground (arith, s.owned a g);
    }

    -- Where the queue of `h` begins with `x`, the pop returns `x` and leaves the rest; the thread is
    -- off the queues, which stay well formed, and nothing else changes.
    pub rq_pop_head-cons :
        (k' : Kernel) × (rq_pop_head h k ≡ done (some x) k')
        × Queues k' (update q h xs) (update own x none)
        × OnlyQueues k k'
    unfolding rq_pop_head
    rq_pop_head-cons =
        (pop_from h x k, ground (arith, queue.links.0), pop_from-Queues, pop_from-OnlyQueues)

-- On an empty queue the pop returns -1 and changes nothing.
pub rq_pop_head-nil :
    (k : Kernel) (h : ℕ) → h < max_harts → IsQueue k h [] → rq_pop_head h k ≡ done none k
unfolding rq_pop_head
rq_pop_head-nil k h lt s = ground (arith, s.links)
