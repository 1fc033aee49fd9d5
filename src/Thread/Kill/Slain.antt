-- ===== src/Thread/Kill/Slain.antt =====
-- What `thread_sys_kill` of kernel/thread.c does to the victim: it is dead and on no queue.
use ccos.Common.{
  ℕ, ◌≡◌, refl, sym, ap, ◌∙◌, ◌≢◌, inl, inr, true, false, none, some, List, arith, leb, ◌==◌,
  is_some, Bool-cases, Option-cases, split_at, erase,
}
use ccos.Kernel.{
  max_harts, Tid, running, zombie, exitcode_sigkill, Kernel, update, set_thread, set_cpu,
}
use ccos.Kernel.Run.{done, pure, ◌>>=◌, when}
use ccos.Runqueue.{rq_remove_any}
use ccos.Runqueue.Links.{Queues, OnlyQueues, Queues-same}
use ccos.Runqueue.RemoveAny.{rq_remove_any-erase}
use ccos.Cpu.{cpu_current_hartid, smp_kick_hart}
use ccos.Cpu.Kick.{smp_kick_hart-ipis}
use ccos.Thread.Kill.{kick_victim}
use ccos.Thread.Invariant.{Ready, Inv, IsSound, Ready-same, HartOk-same, RunsOn-same}
use ccos.Thread.Frame.{SameHart, SameHart-refl, Delivered, Inv-cpus, Inv-thread}
use mathlib.Core.Path.{subst}

module _ (t : ℕ) {k : Kernel} {q : ℕ → List ℕ} {own : ℕ → Tid} (v : Inv k q own) where
  -- The victim is marked dead, and may still be queued.
  abbrev pub marked : Kernel
  marked =
      set_thread t
        (record (k.threads t) { exit_code = exitcode_sigkill; state = zombie; wakeup_tick = 0 }) k

  marked-Queues : Queues marked q own
  marked-Queues =
      Queues-same k marked q own v.queues (λ a o. ground arith) (λ a. ground arith) (λ h. refl)

  unqueued-Inv : own t ≡ none → Inv marked q own
  unqueued-Inv free =
      Inv-thread t k marked q own v (λ a ne. ground arith) refl refl (ground arith)
        (λ o. ground arith) (ground arith)
        (record {
          runnable_of_queued = λ o. ground arith;
          queued_of_runnable = λ r f e. ground arith;
        })
        (λ h r. ground arith) (λ e. ground arith)

  module _ (h : ℕ) (mine : own t ≡ some h) (k' : Kernel)
      (queues : Queues k' (update q h (erase t (q h))) (update own t none))
      (only : OnlyQueues marked k') where
    removed-Inv : Inv k' (update q h (erase t (q h))) (update own t none)
    removed-Inv =
        let state : (a : ℕ) → (k'.threads a).state ≡ (marked.threads a).state =
          λ a. ap (λ u. u.state) (only.threads a) in
        let hart : (a : ℕ) → (k'.threads a).running_hart ≡ (k.threads a).running_hart =
          λ a. ap (λ u. u.running_hart) (only.threads a) ∙ ground arith in
        let cpus : (g : ℕ) → k'.cpus g ≡ k.cpus g = λ g. ap (λ n. n.cpus g) only.others in
        record {
          queues = queues;
          ready =
              split_at (Ready k' (update own t none)) t
                (record {
                  runnable_of_queued = λ o. absurd (ground arith);
                  queued_of_runnable = λ r f e. ground (arith, state t);
                })
                (λ a ne.
                  Ready-same k k' own (update own t none) a (ground (arith, state a)) (ground arith)
                    (v.ready a));
          harts = λ g lt. HartOk-same k k' g (cpus g) (v.harts g lt);
          current = λ g a lt now.
              let r = v.current g a lt (ground (arith, cpus g)) in
              let other : a ≢ t = λ p. ground (arith, r.unqueued, ap own p) in
              RunsOn-same k k' own (update own t none) g a (cpus g) (ground (arith, state a))
                (hart a) (ground arith) r;
          placed = λ a g e. ground (arith, v.placed a g, hart a, cpus g);
          busy =
              split_at
                (λ a. (k'.threads a).state ≡ running → is_some (k'.threads a).running_hart ≡ true) t
                (λ e. absurd (ground (arith, state t)))
                (λ a ne e. ground (arith, v.busy a, state a, hart a));
        }

  -- After the removal from the queues the invariant holds, with the victim dead, and the other
  -- threads are as they were.
  pub removed :
      (k' : Kernel) × (when (marked.threads t).on_rq (do _ ← rq_remove_any (some t); pure tt) marked
        ≡ done tt k')
      × IsSound k'
      × Delivered t k k'
      × ((k'.threads t).state ≡ zombie)
  removed = elim (Option-cases (own t)) [
    | inl free ↦
        let flag : (marked.threads t).on_rq ≡ false = ground (arith, v.queues.flagged t) in
        (
          marked,
          rw flag,
          (q, own, unqueued-Inv free),
          record {
            harts = λ h. SameHart-refl;
            threads = λ a ne. ground arith;
            boot = refl;
            ticks = refl;
          },
          ground arith,
        )
    | inr (h, mine) ↦
        let flag : (marked.threads t).on_rq ≡ true = ground (arith, v.queues.flagged t) in
        let (k', run, queues, only) = rq_remove_any-erase marked t marked-Queues h mine in
        (
          k',
          rw (flag, run),
          (_, _, removed-Inv h mine k' queues only),
          record {
            harts = λ g.
                subst (SameHart (k.cpus g)) (sym (ap (λ n. n.cpus g) only.others)) SameHart-refl;
            threads = λ a ne. only.threads a ∙ ground arith;
            boot = ap (λ n. n.boot_hartid) only.others;
            ticks = ap (λ n. n.ticks) only.others;
          },
          ap (λ u. u.state) (only.threads t) ∙ ground arith,
        )
  ]

record KickedOnly (k k' : Kernel) : Type 0 where
  threads : k'.threads ≡ k.threads
  runqueues : k'.runqueues ≡ k.runqueues
  harts : (h : ℕ) → SameHart (k.cpus h) (k'.cpus h)
  boot : k'.boot_hartid ≡ k.boot_hartid
  ticks : k'.ticks ≡ k.ticks

kicked_other : (rh : ℕ) (k : Kernel) → KickedOnly k (smp_kick_hart rh k)
kicked_other rh k = rw (smp_kick_hart-ipis rh k) (record {
  threads = refl;
  runqueues = refl;
  harts = λ h. SameHart-refl;
  boot = refl;
  ticks = refl;
})

kicked_self :
    (self : ℕ) (k : Kernel)
    → KickedOnly k (set_cpu self (record (k.cpus self) { need_resched = true }) k)
kicked_self self k = record {
  threads = refl;
  runqueues = refl;
  harts = λ h. ground arith;
  boot = refl;
  ticks = refl;
}

kick_victim-KickedOnly : (self t : ℕ) (k : Kernel) → KickedOnly k (kick_victim self t k)
unfolding kick_victim
kick_victim-KickedOnly self t k = elim (Option-cases (k.threads t).running_hart) [
  | inl e ↦
      rw (e, kick_victim)
        (record {
          threads = refl;
          runqueues = refl;
          harts = λ h. SameHart-refl;
          boot = refl;
          ticks = refl;
        })
  | inr (rh, e) ↦
      rw (e, kick_victim)
        (elim (Bool-cases (leb max_harts rh)) [
          | inl out ↦ rw out (record {
            threads = refl;
            runqueues = refl;
            harts = λ h. SameHart-refl;
            boot = refl;
            ticks = refl;
          })
          | inr real ↦ rw real (elim (Bool-cases (rh == cpu_current_hartid self k)) [
            | inl here ↦ rw here (kicked_self self k)
            | inr away ↦ rw away (kicked_other rh k)
          ])
        ])
]

-- Kicking the victim's hart changes no thread, no queue and not what a hart runs.
pub kick_victim-Inv :
    (self t : ℕ) {k : Kernel} {q : ℕ → List ℕ} {own : ℕ → Tid}
    → Inv k q own
    → Inv (kick_victim self t k) q own
      × Delivered t k (kick_victim self t k)
      × ((kick_victim self t k).threads ≡ k.threads)
kick_victim-Inv self t {k} {q} {own} v =
    let s = kick_victim-KickedOnly self t k in
    (
      Inv-cpus k (kick_victim self t k) q own v s.threads s.runqueues s.harts,
      record { harts = s.harts; threads = λ a ne. rw s.threads; boot = s.boot; ticks = s.ticks },
      s.threads,
    )
