-- ===== src/Thread/Create.antt =====
-- Creating a thread (kernel/thread.c): which slot it gets, and that the kernel stays sound.
use ccos.Common.{
  ℕ, zero, suc, ◌+◌, ◌≤◌, ◌<◌, ◌≡◌, refl, ◌∙◌, ◌≢◌, inl, inr, false, Option, none, some, List,
  arith, ltb, ◌==◌, Bool-cases, Option-cases, split_at,
}
use ccos.Kernel.{
  thread_max, max_harts, Tid, unused, runnable, in_state, Thread, Kernel, Machine, set_thread,
}
use ccos.Kernel.Run.{done}
use ccos.Cpu.{cpu_current_hartid}
use ccos.Thread.{
  thread_make_runnable, alloc_thread_slot, init_thread_context_s, init_thread_context_u,
  thread_create_kern, thread_create_user, start_thread, alloc_loop, init_context, fresh_kern,
  fresh_user,
}
use ccos.Thread.Invariant.{Inv, IsSound, IsAway}
use ccos.Thread.Frame.{Inv-thread}
use ccos.Thread.Wake.{make_runnable-idle}
use ccos.Thread.Runnable.{thread_make_runnable-Inv}
use mathlib.Core.Path.{subst}

-- What the search for a free slot, from slot `i` to below slot `last`, may answer.
unfoldable pub IsFirstFree : Kernel → ℕ → ℕ → Tid → Type 0
IsFirstFree k i last none = (a : ℕ) → i ≤ a → a < last → (k.threads a).state ≢ unused
IsFirstFree k i last (some t) =
    (i ≤ t)
    × (t < last)
    × ((k.threads t).state ≡ unused)
    × ((a : ℕ) → i ≤ a → a < t → (k.threads a).state ≢ unused)

IsFirstFree-step :
    (k : Kernel) (i last : ℕ) (o : Tid)
    → (k.threads i).state ≢ unused
    → IsFirstFree k (suc i) last o
    → IsFirstFree k i last o
unfolding IsFirstFree
IsFirstFree-step k i last none taken free =
    split_at (λ a. i ≤ a → a < last → (k.threads a).state ≢ unused) i (λ le lt. taken)
      (λ a ne le lt. free a (omega arith) lt)
IsFirstFree-step k i last (some t) taken (le, lt, here, first) = (
  omega arith,
  lt,
  here,
  split_at (λ a. i ≤ a → a < t → (k.threads a).state ≢ unused) i (λ le lt. taken)
      (λ a ne le lt. first a (omega arith) lt),
)

alloc_loop-IsFirstFree : (n i : ℕ) (k : Kernel) → IsFirstFree k i (i + n) (alloc_loop n i k)
unfolding alloc_loop IsFirstFree
alloc_loop-IsFirstFree zero i k = λ a le lt. absurd (omega arith)
alloc_loop-IsFirstFree (suc n) i k =
    let rest = alloc_loop-IsFirstFree n (suc i) k in
    elim (Bool-cases (in_state (k.threads i).state unused)) [
      | inl e ↦ rw e (omega arith, omega arith, ground arith, λ a le lt. absurd (omega arith))
      | inr e ↦
          let end : suc i + n ≡ i + suc n = omega arith in
          let found =
            IsFirstFree-step k i (suc i + n) (alloc_loop n (suc i) k) (ground arith) rest in
          rw e (subst (λ b. IsFirstFree k i b (alloc_loop n (suc i) k)) end found)
    ]

-- A new thread gets the first UNUSED slot but slot 0; there is none only if all are taken.
pub alloc_thread_slot-IsFirstFree : (k : Kernel) → IsFirstFree k 1 thread_max (alloc_thread_slot k)
unfolding alloc_thread_slot
alloc_thread_slot-IsFirstFree k = alloc_loop-IsFirstFree 63 1 k

-- What a filler of the slot must leave alone, and what it must set.
record IsFresh (fill : Thread → Thread) : Type 0 where
  state : (t : Thread) → (fill t).state ≡ runnable
  on_rq : (t : Thread) → (fill t).on_rq ≡ t.on_rq
  rq_next : (t : Thread) → (fill t).rq_next ≡ t.rq_next
  running_hart : (t : Thread) → (fill t).running_hart ≡ t.running_hart

module _ (self : ℕ) (lt : self < max_harts) {k : Kernel} {q : ℕ → List ℕ} {own : ℕ → Tid}
    (v : Inv k q own) (t : ℕ) (fits : t < thread_max) (free : (k.threads t).state ≡ unused)
    (fill : Thread → Thread) (fresh : IsFresh fill) where
  abbrev filled : Kernel
  filled = set_thread t (fill (k.threads t)) k

  unused-IsAway : IsAway k t
  unused-IsAway h small now = ground (arith, (v.current h t small now).state)

  unused-hart : (k.threads t).running_hart ≡ none
  unused-hart = elim (Option-cases (k.threads t).running_hart) [
    | inl e ↦ e
    | inr (h, e) ↦ let (small, now) = v.placed t h e in absurd (unused-IsAway h small now)
  ]

  unused-free : own t ≡ none
  unused-free = ground (arith, (v.ready t).runnable_of_queued)

  -- A slot of an idle thread is filled, but not queued.
  filled-Inv : t < max_harts → Inv filled q own
  filled-Inv small =
      Inv-thread t k filled q own v (λ a ne. ground arith) refl refl
        (ground (arith, fresh.on_rq (k.threads t))) (λ o. ground (arith, unused-free))
        (ground (arith, fresh.running_hart (k.threads t)))
        (record {
          runnable_of_queued = λ o. ground (arith, unused-free);
          queued_of_runnable = λ real f e. absurd (ground arith);
        })
        (λ h r. absurd (ground (arith, r.state)))
        (λ e. absurd (ground (arith, fresh.state (k.threads t))))

  start_thread-IsSound :
      (k' : Kernel) × (start_thread self t fill k ≡ done (some t) k') × IsSound k'
  unfolding start_thread
  start_thread-IsSound =
      let preferred = cpu_current_hartid self filled in
      elim (Bool-cases (ltb t max_harts)) [
        | inl small ↦
            let stays : thread_make_runnable self (some t) preferred filled ≡ done tt filled =
              make_runnable-idle self t preferred filled (ground arith) in
            (filled, rw stays refl, (q, own, filled-Inv (ground arith)))
        | inr real ↦
            let (k', run, inv, d) =
              thread_make_runnable-Inv self t (fill (k.threads t)) v (ground arith) fits unused-free
                unused-IsAway
                (fresh.on_rq (k.threads t) ∙ ground (arith, v.queues.flagged t, unused-free))
                (fresh.running_hart (k.threads t) ∙ unused-hart)
                (λ e. absurd (ground (arith, fresh.state (k.threads t)))) preferred
                (rw (v.harts self lt).hartid lt) in
            (k', rw run refl, (_, _, inv))
      ]

fresh_kern-IsFresh :
    (m : Machine) (tid entry arg : ℕ) (name : Option (List ℕ))
    → IsFresh (λ t. init_thread_context_s m (fresh_kern m tid name t) entry arg)
unfolding init_thread_context_s init_context fresh_kern
fresh_kern-IsFresh m tid entry arg name = record {
  state = λ t. refl;
  on_rq = λ t. refl;
  rq_next = λ t. refl;
  running_hart = λ t. refl;
}

fresh_user-IsFresh :
    (m : Machine) (tid entry arg : ℕ) (name : Option (List ℕ))
    → IsFresh (λ t. init_thread_context_u m (fresh_user m tid name t) entry arg)
unfolding init_thread_context_u init_context fresh_user
fresh_user-IsFresh m tid entry arg name = record {
  state = λ t. refl;
  on_rq = λ t. refl;
  rq_next = λ t. refl;
  running_hart = λ t. refl;
}

module _ (m : Machine) (self : ℕ) (lt : self < max_harts) (entry arg : ℕ) (name : Option (List ℕ))
    {k : Kernel} (sound : IsSound k) where
  -- Creating a kernel thread with an entry that is not null answers the slot that the search found,
  -- does not panic, and keeps the kernel sound.
  pub thread_create_kern-IsSound :
      entry ≢ 0
      → (k' : Kernel) × (thread_create_kern m self entry arg name k ≡ done (alloc_thread_slot k) k')
        × IsSound k'
  unfolding thread_create_kern IsFirstFree
  thread_create_kern-IsSound real =
      let (q, own, v) = sound in
      let test : (entry == 0) ≡ false = ground arith in
      let found = alloc_thread_slot-IsFirstFree k in
      elim (Option-cases (alloc_thread_slot k)) [
        | inl e ↦ (k, rw (test, e) refl, sound)
        | inr (t, e) ↦
            let (pos, fits, free, first) = rw e at found in
            rw (test, e)
              (start_thread-IsSound self lt v t fits free _ (fresh_kern-IsFresh m t entry arg name))
      ]

  -- The same for a user thread, whatever its entry.
  pub thread_create_user-IsSound :
      (k' : Kernel) × (thread_create_user m self entry arg name k ≡ done (alloc_thread_slot k) k')
      × IsSound k'
  unfolding thread_create_user IsFirstFree
  thread_create_user-IsSound =
      let (q, own, v) = sound in
      let found = alloc_thread_slot-IsFirstFree k in
      elim (Option-cases (alloc_thread_slot k)) [
        | inl e ↦ (k, ground (arith, e), sound)
        | inr (t, e) ↦
            let (pos, fits, free, first) = rw e at found in
            let (k', run, sound') =
              start_thread-IsSound self lt v t fits free _
                (fresh_user-IsFresh m t entry arg name) in
            (k', ground (arith, e, run), sound')
      ]
