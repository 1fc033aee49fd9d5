-- ===== src/Runqueue/Links.antt =====
-- What a run queue stands for: the threads on it, in order (kernel/runqueue.c).
use ccos.Common.{
  ℕ, ◌≤◌, ◌<◌, ◌≡◌, ap, ◌∙◌, true, false, none, some, List, [], ◌∷◌, ◌++◌, arith, ◌==◌, same,
  is_some, if◌then◌else◌, length, get_last_or, get_last?, mem, Distinct, Bool-cases, ==_iff, ◌≢◌,
  inl, sym, inr,
}
use mathlib.Core.Path.{subst}
use ccos.Kernel.{Kernel, Thread, Tid, thread_max, max_harts, update}

-- From `p` the `rq_next` fields lead through the threads `xs` to -1.
abbrev pub Links : (ℕ → Thread) → Tid → List ℕ → Type 0
Links T p [] = p ≡ none
Links T p (x ∷ xs) = (p ≡ some x) × Links T (T x).rq_next xs

pub Links-frame :
    (T T' : ℕ → Thread) (p : Tid) (xs : List ℕ)
    → ((a : ℕ) → mem a xs ≡ true → (T' a).rq_next ≡ (T a).rq_next)
    → Links T p xs
    → Links T' p xs
Links-frame T T' p [] same_next l = l
Links-frame T T' p (x ∷ xs) same_next l = (
  l.0,
  Links-frame T T' (T' x).rq_next xs (λ a m. same_next a (ground arith))
      (ground (arith, same_next x)),
)

-- Every thread on a chain is found on it, its last one included.
pub mem-get_last_or : (x : ℕ) (xs : List ℕ) → mem (get_last_or xs x) (x ∷ xs) ≡ true
mem-get_last_or x [] = ground arith
mem-get_last_or x (y ∷ ys) = ground (arith, mem-get_last_or y ys)

-- A chain whose last thread is linked to one more.
pub Links-snoc :
    (T T' : ℕ → Thread) (t x : ℕ) (xs : List ℕ)
    → Distinct (x ∷ xs)
    → Links T (T x).rq_next xs
    → ((a : ℕ)
        → mem a (x ∷ xs) ≡ true
        → (T' a).rq_next ≡ (if a == get_last_or xs x then some t else (T a).rq_next))
    → (T' t).rq_next ≡ none
    → Links T' (T' x).rq_next (xs ++ t ∷ [])
Links-snoc T T' t x [] d l next end = (ground (arith, next x), end)
Links-snoc T T' t x (y ∷ ys) d l next end = (
  ground (arith, next x, mem-get_last_or y ys),
  Links-snoc T T' t y ys d.1 l.1 (λ a m. next a (ground arith)) end,
)

pub record IsQueue (k : Kernel) (h : ℕ) (xs : List ℕ) : Type 0 where
  pub links : Links k.threads (k.runqueues h).head xs
  pub tail : (k.runqueues h).tail ≡ get_last? xs
  pub len : (k.runqueues h).len ≡ length xs
  pub distinct : Distinct xs

-- The queues of all harts: `q h` is the queue of hart `h`, and `own t` the hart whose queue holds
-- the thread `t`.
pub record Queues (k : Kernel) (q : ℕ → List ℕ) (own : ℕ → Tid) : Type 0 where
  pub each : (h : ℕ) → h < max_harts → IsQueue k h (q h)
  pub member : (h t : ℕ) → h < max_harts → mem t (q h) ≡ same (own t) (some h)
  pub flagged : (t : ℕ) → (k.threads t).on_rq ≡ is_some (own t)
  pub owned : (t h : ℕ) → own t ≡ some h → (h < max_harts) × (max_harts ≤ t) × (t < thread_max)

-- The thread without its queue fields.
abbrev pub off_queue : Thread → Thread
off_queue t = record t { rq_next = none; on_rq = false }

-- From `k` to `k'` only the queues and the queue fields of the threads have changed.
pub record OnlyQueues (k k' : Kernel) : Type 0 where
  pub threads : (t : ℕ) → off_queue (k'.threads t) ≡ off_queue (k.threads t)
  pub others : record k' { threads = k.threads; runqueues = k.runqueues } ≡ k

pub OnlyQueues-trans : (k l m : Kernel) → OnlyQueues k l → OnlyQueues l m → OnlyQueues k m
OnlyQueues-trans k l m a b = record {
  threads = λ t. b.threads t ∙ a.threads t;
  others =
      ap {A = Kernel} (λ n. record n { threads = k.threads; runqueues = k.runqueues }) b.others
      ∙ a.others;
}

-- A change of the queue of hart `h`, the other queues being what they were.
pub each_update :
    (k : Kernel) (q : ℕ → List ℕ) (h : ℕ) (ys : List ℕ)
    → IsQueue k h ys
    → ((g : ℕ) → g < max_harts → g ≢ h → IsQueue k g (q g))
    → (g : ℕ) → g < max_harts
    → IsQueue k g (update q h ys g)
each_update k q h ys here there g lt = elim (Bool-cases (g == h)) [
  | inl e ↦ rw e (subst (λ i. IsQueue k i ys) (sym ((==_iff g h).0 e)) here)
  | inr ne ↦ rw ne (there g lt (ground arith))
]

-- What the invariant says of the entries of one queue.
module _ {k : Kernel} {q : ℕ → List ℕ} {own : ℕ → Tid} (s : Queues k q own) where
  pub own_of_mem : (h a : ℕ) → h < max_harts → mem a (q h) ≡ true → own a ≡ some h
  own_of_mem h a lt m = ground (arith, s.member h a lt)

  pub not-mem_of_own :
      (h a : ℕ) (o : Tid)
      → h < max_harts
      → own a ≡ o
      → same o (some h) ≡ false
      → mem a (q h) ≡ false
  not-mem_of_own h a o lt e ne = ground (arith, s.member h a lt)

-- The invariant speaks of the queues and of the queue fields only; the successor of a thread that
-- is on no queue is free.
pub Queues-same :
    (k k' : Kernel) (q : ℕ → List ℕ) (own : ℕ → Tid)
    → Queues k q own
    → ((t : ℕ) → is_some (own t) ≡ true → (k'.threads t).rq_next ≡ (k.threads t).rq_next)
    → ((t : ℕ) → (k'.threads t).on_rq ≡ (k.threads t).on_rq)
    → ((h : ℕ) → k'.runqueues h ≡ k.runqueues h)
    → Queues k' q own
Queues-same k k' q own s next flag rqs = record {
  each = λ h lt. record {
    links = rw (rqs h) (
        Links-frame k.threads k'.threads (k.runqueues h).head (q h)
          (λ a m. next a (ground (arith, s.member h a lt))) (s.each h lt).links);
    tail = rw (rqs h) (s.each h lt).tail;
    len = rw (rqs h) (s.each h lt).len;
    distinct = (s.each h lt).distinct;
  };
  member = s.member;
  flagged = λ t. flag t ∙ s.flagged t;
  owned = s.owned;
}
