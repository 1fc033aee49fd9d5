-- ===== src/Thread/Wake.antt =====
-- Waking a thread by `thread_make_runnable` (kernel/thread.c), whatever its state.
use ccos.Common.{
  ℕ, ◌<◌, ◌≡◌, refl, ◌∙◌, inl, inr, Bool, true, false, not, ◌&&◌, ◌||◌, none, some, List, arith,
  ltb, leb, Bool-cases, Option-cases, split_at,
}
use ccos.Kernel.{
  thread_max, max_harts, Tid, running, zombie, in_state, Thread, Kernel, set_thread, update,
}
use ccos.Kernel.Run.{done}
use ccos.Thread.{thread_make_runnable}
use ccos.Thread.Invariant.{Inv, IsSound, IsAway, Ready-same}
use ccos.Thread.Frame.{SameHart-refl, Delivered, Inv-thread}
use ccos.Thread.Runnable.{thread_make_runnable-Inv}

-- `u` differs from the thread in nothing that the invariant reads.
pub record SameThread (t u : Thread) : Type 0 where
  pub state : u.state ≡ t.state
  pub on_rq : u.on_rq ≡ t.on_rq
  pub running_hart : u.running_hart ≡ t.running_hart
  pub rq_next : u.rq_next ≡ t.rq_next

module _ (j : ℕ) (u : Thread) {k : Kernel} {q : ℕ → List ℕ} {own : ℕ → Tid} (v : Inv k q own)
    (s : SameThread (k.threads j) u) where
  pub set_thread-Inv : Inv (set_thread j u k) q own
  set_thread-Inv =
      Inv-thread j k (set_thread j u k) q own v (λ a ne. ground arith) refl refl
        (ground (arith, s.on_rq)) (λ o. ground (arith, s.rq_next)) (ground (arith, s.running_hart))
        (Ready-same k (set_thread j u k) own own j (ground (arith, s.state)) refl (v.ready j))
        (λ h r. ground (arith, r.state, s.state))
        (λ e. ground (arith, v.busy j, s.state, s.running_hart))

  set_thread-Delivered : Delivered j k (set_thread j u k)
  set_thread-Delivered = record {
    harts = λ h. SameHart-refl;
    threads = λ a ne. ground arith;
    boot = refl;
    ticks = refl;
  }

-- Writing back what a slot holds changes nothing.
pub set_thread_self : (t : ℕ) (k : Kernel) → set_thread t (k.threads t) k ≡ k
set_thread_self t k = λ i. record k {
  threads = λ a.
      split_at (λ b. update k.threads t (k.threads t) b ≡ k.threads b) t (ground arith)
        (λ b ne. ground arith) a i;
}

-- The tests of `thread_make_runnable` that let it do its work.
abbrev pub wakeable : Thread → ℕ → Bool
wakeable u j =
    not (leb thread_max j) && (not (ltb j max_harts) && not (u.on_rq || in_state u.state running))

pub make_runnable-idle :
    (self j preferred : ℕ) (k : Kernel)
    → wakeable (k.threads j) j ≡ false
    → thread_make_runnable self (some j) preferred k ≡ done tt k
unfolding thread_make_runnable
make_runnable-idle self j preferred k e = ground arith

module _ (self j : ℕ) (u : Thread) (preferred : ℕ) {k : Kernel} {q : ℕ → List ℕ} {own : ℕ → Tid}
    (v : Inv k q own) (s : SameThread (k.threads j) u) (lt : preferred < max_harts)
    (dead : (k.threads j).state ≡ zombie → IsAway k j) where
  woken-IsAway : wakeable u j ≡ true → IsAway k j
  woken-IsAway e h small now =
      let r = v.current h j small now in
      elim r.state [ inl run ↦ absurd (ground (arith, s.state)) | inr gone ↦ dead gone h small now ]

  woken-hart : wakeable u j ≡ true → u.running_hart ≡ none
  woken-hart e = elim (Option-cases (k.threads j).running_hart) [
    | inl free ↦ s.running_hart ∙ free
    | inr (h, on) ↦ let (small, now) = v.placed j h on in absurd (woken-IsAway e h small now)
  ]

  woken-free : wakeable u j ≡ true → own j ≡ none
  woken-free e = ground (arith, v.queues.flagged j, s.on_rq)

  -- Whatever state the thread is in, unless a hart still runs it although it is dead, the wake-up
  -- ends without a panic in a sound kernel; the harts run what they ran.
  pub thread_make_runnable-IsSound :
      (k' : Kernel) × (thread_make_runnable self (some j) preferred (set_thread j u k) ≡ done tt k')
      × IsSound k'
      × Delivered j k k'
  thread_make_runnable-IsSound = elim (Bool-cases (wakeable u j)) [
    | inl e ↦
        let (k', run, inv, delivered) =
          thread_make_runnable-Inv self j u v (ground arith) (ground arith) (woken-free e)
            (woken-IsAway e) (ground arith) (woken-hart e) (λ p. ground arith) preferred lt in
        (k', run, (_, _, inv), delivered)
    | inr e ↦ (
      set_thread j u k,
      make_runnable-idle self j preferred (set_thread j u k) (ground arith),
      (q, own, set_thread-Inv j u v s),
      set_thread-Delivered j u v s,
    )
  ]
