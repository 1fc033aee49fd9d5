-- ===== src/Runqueue/Remove.antt =====
-- `rq_remove` and `rq_remove_any` of kernel/runqueue.c take a thread off its queue.
use ccos.Common.{
  ℕ, ◌≡◌, refl, true, false, some, List, [], ◌∷◌, ◌++◌, arith, ◌==◌, if◌then◌else◌, get_last_or,
  get_last?, mem, Distinct, erase, mem-append, none, length-append, same, Distinct-erase, ◌≢◌, ◌-◌,
  length, ◌<◌, suc, zero, Bool-cases, inl, ap, ==_iff, inr, get_last?-append, mem-erase,
}
use ccos.Kernel.{Thread, Kernel, Tid, max_harts, update}
use ccos.Runqueue.Links.{
  Links, Links-frame, mem-get_last_or, IsQueue, OnlyQueues, Queues, own_of_mem, each_update,
  not-mem_of_own,
}
use ccos.Runqueue.{cut, remove_loop, rq_remove}
use mathlib.Core.List.{append-nil, append_assoc}
use ccos.Kernel.Run.{done}

get_last?-cons :
    (xs : List ℕ) (y : ℕ) (ys : List ℕ) → get_last? (xs ++ y ∷ ys) ≡ some (get_last_or ys y)
get_last?-cons [] y ys = refl
get_last?-cons (x ∷ xs) y ys = go x xs
  where
    go : (d : ℕ) (xs : List ℕ) → get_last? (d ∷ xs ++ y ∷ ys) ≡ some (get_last_or ys y)
    go d [] = refl
    go d (x ∷ xs) = go x xs

erase-append : (t : ℕ) (pre zs : List ℕ) → mem t pre ≡ false → erase t (pre ++ t ∷ zs) ≡ pre ++ zs
erase-append t [] zs out = ground arith
erase-append t (x ∷ pre) zs out = ground (arith, erase-append t pre zs)

Distinct-split :
    (t : ℕ) (pre zs : List ℕ) → Distinct (pre ++ t ∷ zs) → (mem t pre ≡ false) × (mem t zs ≡ false)
Distinct-split t [] zs d = (refl, d.0)
Distinct-split t (x ∷ pre) zs d =
    ground (arith, Distinct-split t pre zs d.1, mem-append x pre (t ∷ zs))

mem_of_last : (xs : List ℕ) (a : ℕ) → get_last? xs ≡ some a → mem a xs ≡ true
mem_of_last [] a e = ground arith
mem_of_last (x ∷ xs) a e = ground (arith, mem-get_last_or x xs)

-- The chain once the successor of the last thread of `x ∷ ps`, which was `t`, is that of `t`.
Links-bypass :
    (T T' : ℕ → Thread) (t x : ℕ) (ps zs : List ℕ)
    → Distinct (x ∷ ps ++ t ∷ zs)
    → Links T (T x).rq_next (ps ++ t ∷ zs)
    → ((a : ℕ)
        → mem a (x ∷ ps ++ zs) ≡ true
        → (T' a).rq_next ≡ (if a == get_last_or ps x then (T t).rq_next else (T a).rq_next))
    → Links T' (T' x).rq_next (ps ++ zs)
Links-bypass T T' t x [] zs d l next =
    ground (arith, next x, Links-frame T T' (T t).rq_next zs (λ a m. ground (arith, next a)) l.1)
Links-bypass T T' t x (y ∷ ys) zs d l next = (
  ground (arith, next x, mem-get_last_or y ys, mem-append x ys (t ∷ zs), last-mem),
  Links-bypass T T' t y ys zs d.1 l.1 (λ a m. next a (ground arith)),
)
  where
    last-mem : mem (get_last_or ys y) (y ∷ ys ++ t ∷ zs) ≡ true
    last-mem = ground (arith, mem-append (get_last_or ys y) (y ∷ ys) (t ∷ zs), mem-get_last_or y ys)

module _ (k : Kernel) (h t : ℕ) where
  cut-runqueue :
      (p : Tid)
      → (((cut h p t k).runqueues h).tail
          ≡ (if same (k.runqueues h).tail (some t) then p else (k.runqueues h).tail))
        × (((cut h p t k).runqueues h).len ≡ (k.runqueues h).len - 1)
  unfolding cut
  cut-runqueue none = ground arith
  cut-runqueue (some p) = ground arith

  cut-tail :
      (pre zs : List ℕ)
      → IsQueue k h (pre ++ t ∷ zs)
      → ((cut h (get_last? pre) t k).runqueues h).tail ≡ get_last? (pre ++ zs)
  cut-tail pre [] s =
      ground (arith, cut-runqueue (get_last? pre), get_last?-cons pre t [], append-nil pre, s.tail)
  cut-tail pre (z ∷ zs) s = ground (
    arith,
    cut-runqueue (get_last? pre),
    get_last?-cons pre t (z ∷ zs),
    get_last?-cons pre z zs,
    s.tail,
    Distinct-split t pre (z ∷ zs) s.distinct,
    mem-get_last_or z zs,
  )

  cut-Links :
      (pre zs : List ℕ)
      → IsQueue k h (pre ++ t ∷ zs)
      → Links
          (cut h (get_last? pre) t k).threads
          ((cut h (get_last? pre) t k).runqueues h).head
          (pre ++ zs)
  unfolding cut
  cut-Links [] zs s = ground (
    arith,
    Links-frame k.threads (cut h none t k).threads (k.threads t).rq_next zs
        (λ a m. ground (arith, s.distinct.0)),
  )
  cut-Links (x ∷ ps) zs s =
      let (before, after) = Distinct-split t (x ∷ ps) zs s.distinct in
      (
        ground (arith, s.links.0),
        Links-bypass k.threads (cut h (get_last? (x ∷ ps)) t k).threads t x ps zs s.distinct
            s.links.1
            (λ a m. ground (arith, before, after, mem-append a (x ∷ ps) zs, mem-get_last_or x ps)),
      )

  cut_self :
      (pre zs : List ℕ)
      → IsQueue k h (pre ++ t ∷ zs)
      → IsQueue (cut h (get_last? pre) t k) h (pre ++ zs)
  cut_self pre zs s = record {
    links = cut-Links pre zs s;
    tail = cut-tail pre zs s;
    len = omega (
      arith,
      (cut-runqueue (get_last? pre)).1,
      s.len,
      length-append pre (t ∷ zs),
      length-append pre zs,
    );
    distinct =
        let out = (Distinct-split t pre zs s.distinct).0 in
        rw (← erase-append t pre zs out) (Distinct-erase t (pre ++ t ∷ zs) s.distinct);
  }

  cut-other :
      (p : Tid) (g : ℕ) (ys : List ℕ)
      → g ≢ h
      → mem t ys ≡ false
      → ((a : ℕ) → p ≡ some a → mem a ys ≡ false)
      → IsQueue k g ys
      → IsQueue (cut h p t k) g ys
  unfolding cut
  cut-other none g ys ne out apart s = record {
    links = ground (
      arith,
      Links-frame k.threads (cut h none t k).threads (k.runqueues g).head ys (λ a m. ground arith),
    );
    tail = ground arith;
    len = ground arith;
    distinct = s.distinct;
  }
  cut-other (some p) g ys ne out apart s = record {
    links = ground (
      arith,
      Links-frame k.threads (cut h (some p) t k).threads (k.runqueues g).head ys
          (λ a m. ground (arith, apart p refl)),
    );
    tail = ground arith;
    len = ground arith;
    distinct = s.distinct;
  }

  cut-OnlyQueues : (p : Tid) → OnlyQueues k (cut h p t k)
  unfolding cut
  cut-OnlyQueues none = record { threads = λ a. ground arith; others = ground arith }
  cut-OnlyQueues (some p) = record { threads = λ a. ground arith; others = ground arith }

  cut-flag :
      (p : Tid) (a : ℕ)
      → ((cut h p t k).threads a).on_rq ≡ (if a == t then false else (k.threads a).on_rq)
  unfolding cut
  cut-flag none a = ground arith
  cut-flag (some p) a = ground arith

  remove_loop-missing :
      (f : ℕ) (prev cur : Tid) (rest : List ℕ)
      → Links k.threads cur rest
      → length rest < f
      → mem t rest ≡ false
      → remove_loop f h t prev cur k ≡ done false k
  unfolding remove_loop
  remove_loop-missing zero prev cur rest l fuel out = absurd (omega arith)
  remove_loop-missing (suc f) prev cur [] l fuel out = rw l
  remove_loop-missing (suc f) prev cur (x ∷ rest) l fuel out =
      rw l.0 (
        ground (arith, remove_loop-missing f (some x) (k.threads x).rq_next rest l.1 (omega arith)))

  found-next :
      (f : ℕ) (pre mid : List ℕ) (x : ℕ) (next : Tid)
      → remove_loop f h t (get_last? (pre ++ x ∷ [])) next k
        ≡ done true (cut h (get_last? ((pre ++ x ∷ []) ++ mid)) t k)
      → remove_loop f h t (some x) next k ≡ done true (cut h (get_last? (pre ++ x ∷ mid)) t k)
  found-next f pre mid x next run =
      rw (← get_last?-append pre x) (rw (append_assoc pre (x ∷ []) mid) at run)

  -- The loop stops at `t` and cuts it out behind the last thread before it.
  remove_loop-found :
      (f : ℕ) (pre : List ℕ) (cur : Tid) (rest : List ℕ)
      → Links k.threads cur rest
      → length rest < f
      → mem t rest ≡ true
      → (mid : List ℕ) × (zs : List ℕ) × (rest ≡ mid ++ t ∷ zs)
        × (remove_loop f h t (get_last? pre) cur k ≡ done true (cut h (get_last? (pre ++ mid)) t k))
  unfolding remove_loop
  remove_loop-found zero pre cur rest l fuel here = absurd (omega arith)
  remove_loop-found (suc f) pre cur [] l fuel here = absurd (ground arith)
  remove_loop-found (suc f) pre cur (x ∷ rest) l fuel here = elim (Bool-cases (x == t)) [
    | inl hit ↦ (
      [],
      rest,
      ap (λ y. y ∷ rest) ((==_iff x t).0 hit),
      rw (l.0, hit, append-nil) (ground arith),
    )
    | inr miss ↦
        let (mid, zs, split, run) =
          remove_loop-found f (pre ++ x ∷ []) (k.threads x).rq_next rest l.1 (omega arith)
            (ground arith) in
        (x ∷ mid, zs, ap (λ ys. x ∷ ys) split, rw (l.0, miss) (found-next f pre mid x _ run))
  ]

module _ (k : Kernel) (h t : ℕ) {q : ℕ → List ℕ} {own : ℕ → Tid} (s : Queues k q own)
    (lt : h < max_harts) where
  cut-Queues :
      (pre zs : List ℕ)
      → q h ≡ pre ++ t ∷ zs
      → own t ≡ some h
      → Queues (cut h (get_last? pre) t k) (update q h (erase t (q h))) (update own t none)
  cut-Queues pre zs e mine = record {
    each =
        each_update (cut h (get_last? pre) t k) q h (erase t (q h))
          (rw (e, erase-append t pre zs (Distinct-split t pre zs here.distinct).0)
            (cut_self k h t pre zs here))
          (λ g small ne.
            cut-other k h t (get_last? pre) g (q g) ne
              (not-mem_of_own s g t (some h) small mine (ground arith))
              (λ a last. not-mem_of_own s g a (some h) small (last-own a last) (ground arith))
              (s.each g small));
    member = λ g a small.
        ground (arith, s.member g a small, mine, mem-erase a t (q h) (s.each h lt).distinct);
    flagged = λ a. ground (arith, s.flagged a, cut-flag k h t (get_last? pre) a);
    owned = λ a g o. ground (arith, s.owned a g);
  }
    where
      here : IsQueue k h (pre ++ t ∷ zs)
      here = rw e at (s.each h lt)

      last-own : (a : ℕ) → get_last? pre ≡ some a → own a ≡ some h
      last-own a last =
          own_of_mem s h a lt
            (rw e (ground (arith, mem-append a pre (t ∷ zs), mem_of_last pre a last)))

  -- The removal of a thread that is on the queue of `h` returns 0, and takes just that thread out;
  -- the queues stay well formed, and nothing else changes.
  pub rq_remove-erase :
      own t ≡ some h
      → (k' : Kernel) × (rq_remove h (some t) k ≡ done true k')
        × Queues k' (update q h (erase t (q h))) (update own t none)
        × OnlyQueues k k'
  unfolding rq_remove
  rq_remove-erase mine =
      let (mid, zs, split, run) =
        remove_loop-found k h t (suc (k.runqueues h).len) [] (k.runqueues h).head (q h)
          (s.each h lt).links (omega (arith, (s.each h lt).len))
          (ground (arith, s.member h t lt)) in
      (
        cut h (get_last? mid) t k,
        ground (arith, run, s.owned t h mine),
        cut-Queues mid zs split mine,
        cut-OnlyQueues k h t (get_last? mid),
      )

  -- The removal of any other thread returns -1 and changes nothing.
  pub rq_remove-missing : own t ≢ some h → rq_remove h (some t) k ≡ done false k
  unfolding rq_remove
  rq_remove-missing away = ground (
    arith,
    s.member h t lt,
    remove_loop-missing k h t (suc (k.runqueues h).len) none (k.runqueues h).head (q h)
        (s.each h lt).links (omega (arith, (s.each h lt).len)),
  )
