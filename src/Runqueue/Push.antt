-- ===== src/Runqueue/Push.antt =====
-- `rq_push_tail` of kernel/runqueue.c appends to the hart's queue.
use ccos.Common.{
  ℕ, ◌≤◌, ◌<◌, ◌≡◌, ◌≢◌, refl, true, false, none, some, List, [], ◌∷◌, ◌++◌, arith, length-append,
  get_last?, get_last?-append, mem, mem-append, Distinct-append,
}
use ccos.Kernel.{Kernel, Tid, thread_max, max_harts, update}
use ccos.Kernel.Run.{done}
use ccos.Runqueue.{link_tail, rq_push_tail}
use ccos.Runqueue.Links.{
  Links-frame, Links-snoc, mem-get_last_or, IsQueue, Queues, OnlyQueues, each_update,
  not-mem_of_own,
}

module _ (k : Kernel) (h t : ℕ) where
  -- On an empty queue.
  link_tail-empty : IsQueue k h [] → IsQueue (link_tail h t k) h (t ∷ [])
  unfolding link_tail
  link_tail-empty s = record {
    links = ground arith;
    tail = ground arith;
    len = ground arith;
    distinct = (refl, tt);
  }

  link_tail-cons :
      (x : ℕ) (xs : List ℕ)
      → mem t (x ∷ xs) ≡ false
      → IsQueue k h (x ∷ xs)
      → IsQueue (link_tail h t k) h ((x ∷ xs) ++ t ∷ [])
  unfolding link_tail
  link_tail-cons x xs out s = record {
    links = (
      ground arith,
      Links-snoc k.threads (link_tail h t k).threads t x xs s.distinct s.links.1
          (λ a m. ground (arith, mem-get_last_or x xs)) (ground (arith, mem-get_last_or x xs)),
    );
    tail = ground (arith, get_last?-append (x ∷ xs) t);
    len = ground (arith, length-append (x ∷ xs) (t ∷ []));
    distinct = Distinct-append (x ∷ xs) t s.distinct out;
  }

  -- The queues of the other harts.
  link_tail-other :
      (g : ℕ) (ys : List ℕ)
      → g ≢ h
      → mem t ys ≡ false
      → ((a : ℕ) → (k.runqueues h).tail ≡ some a → mem a ys ≡ false)
      → IsQueue k g ys
      → IsQueue (link_tail h t k) g ys
  unfolding link_tail
  link_tail-other g ys ne out apart s = record {
    links = ground (
      arith,
      Links-frame k.threads (link_tail h t k).threads (k.runqueues g).head ys
          (λ a m. ground (arith, apart a)),
    );
    tail = ground arith;
    len = ground arith;
    distinct = s.distinct;
  }

  link_tail_self :
      (xs : List ℕ) → mem t xs ≡ false → IsQueue k h xs → IsQueue (link_tail h t k) h (xs ++ t ∷ [])
  link_tail_self [] out s = link_tail-empty s
  link_tail_self (x ∷ xs) out s = link_tail-cons x xs out s

  tail-mem : (xs : List ℕ) (a : ℕ) → get_last? xs ≡ some a → mem a xs ≡ true
  tail-mem [] a e = ground arith
  tail-mem (x ∷ xs) a e = ground (arith, mem-get_last_or x xs)

  link_tail-OnlyQueues : OnlyQueues k (link_tail h t k)
  unfolding link_tail
  link_tail-OnlyQueues = record { threads = λ a. ground arith; others = ground arith }

  module _ {q : ℕ → List ℕ} {own : ℕ → Tid} (s : Queues k q own) (lt : h < max_harts)
      (real : max_harts ≤ t) (fits : t < thread_max) (free : own t ≡ none) where
    pub link_tail-Queues :
        Queues (link_tail h t k) (update q h (q h ++ t ∷ [])) (update own t (some h))
    unfolding link_tail
    link_tail-Queues = record {
      each =
          each_update (link_tail h t k) q h (q h ++ t ∷ [])
            (link_tail_self (q h) (not-mem_of_own s h t none lt free refl) (s.each h lt))
            (λ g small ne.
              link_tail-other g (q g) ne (not-mem_of_own s g t none small free refl)
                (λ a e. ground (
                  arith,
                  s.member g a small,
                  s.member h a lt,
                  tail-mem (q h) a,
                  (s.each h lt).tail,
                ))
                (s.each g small));
      member = λ g a small. ground (arith, s.member g a small, mem-append a (q h) (t ∷ []));
      flagged = λ a. ground (arith, s.flagged a);
      owned = λ a g e. ground (arith, s.owned a g);
    }

    -- In a kernel whose queues are well formed, a thread of the table that is no idle thread and is on none
    -- of them goes to the end of the queue of the hart `h`, which is below MAX_HARTS; the queues stay well
    -- formed, and nothing changes but queues and queue fields.
    pub rq_push_tail-append :
        (k' : Kernel) × (rq_push_tail h (some t) k ≡ done tt k')
        × Queues k' (update q h (q h ++ t ∷ [])) (update own t (some h))
        × OnlyQueues k k'
    unfolding rq_push_tail
    rq_push_tail-append =
        (link_tail h t k, ground (arith, s.flagged t), link_tail-Queues, link_tail-OnlyQueues)
