-- ===== src/Thread/Runnable.antt =====
-- `thread_make_runnable` of kernel/thread.c queues a thread and keeps the invariant.
use ccos.Common.{
  ℕ, ◌≤◌, ◌<◌, ◌≡◌, refl, ap, ◌≢◌, true, false, none, some, List, [], ◌∷◌, ◌++◌, arith, ◌==◌,
  if◌then◌else◌, is_some, split_at, Bool-cases, inl, inr, sym, ◌∙◌,
}
use ccos.Kernel.{
  thread_max, max_harts, Tid, runnable, running, Thread, Kernel, update, set_thread, set_cpu,
}
use ccos.Runqueue.Links.{Queues, OnlyQueues, Queues-same}
use ccos.Cpu.{cpu_current_hartid, smp_kick_hart}
use ccos.Thread.Invariant.{Ready, Inv, Ready-same, HartOk-same, RunsOn-same, IsAway}
use ccos.Thread.{thread_make_runnable, notify, enqueue}
use ccos.Kernel.Run.{done}
use ccos.Sched.{sched_pick_target_hart}
use ccos.Thread.Frame.{Inv-cpus, Delivered, Delivered-trans, SameHart-refl, SameHart}
use ccos.Sched.Pick.{sched_pick_target_hart-lt}
use ccos.Runqueue.Push.{rq_push_tail-append}
use ccos.Cpu.Kick.{smp_kick_hart-ipis}
use mathlib.Core.Path.{subst}

-- What `notify` leaves of the kernel.
pub notified : ℕ → ℕ → Kernel → Kernel
notified self target k =
    if target == cpu_current_hartid self k
    then set_cpu self (record (k.cpus self) { need_resched = true }) k
    else smp_kick_hart target k

module _ (self t : ℕ) (u : Thread) {k : Kernel} {q : ℕ → List ℕ} {own : ℕ → Tid} (v : Inv k q own)
    (real : max_harts ≤ t) (fits : t < thread_max) (free : own t ≡ none) (away : IsAway k t)
    (flag : u.on_rq ≡ false) (hart : u.running_hart ≡ none) (state : u.state ≢ running) where
  abbrev readied : Kernel
  readied =
      set_thread t (record ((set_thread t u k).threads t) { state = runnable; wakeup_tick = 0 })
        (set_thread t u k)

  readied-Queues : Queues readied q own
  readied-Queues =
      Queues-same k readied q own v.queues (λ a o. ground arith)
        (split_at (λ a. (readied.threads a).on_rq ≡ (k.threads a).on_rq) t
          (ground (arith, v.queues.flagged t)) (λ a ne. ground arith))
        (λ h. refl)

  module _ (target : ℕ) (k' : Kernel)
      (queues : Queues k' (update q target (q target ++ t ∷ [])) (update own t (some target)))
      (only : OnlyQueues readied k') where
    pushed-Inv : Inv k' (update q target (q target ++ t ∷ [])) (update own t (some target))
    pushed-Inv =
        let state' : (a : ℕ) → (k'.threads a).state ≡ (readied.threads a).state =
          λ a. ap (λ w. w.state) (only.threads a) in
        let hart' : (a : ℕ) → (k'.threads a).running_hart ≡ (readied.threads a).running_hart =
          λ a. ap (λ w. w.running_hart) (only.threads a) in
        let cpus : (h : ℕ) → k'.cpus h ≡ k.cpus h = λ h. ap (λ n. n.cpus h) only.others in
        record {
          queues = queues;
          ready =
              split_at (Ready k' (update own t (some target))) t
                (record {
                  runnable_of_queued = λ o. ground (arith, state' t);
                  queued_of_runnable = λ r f e. ground arith;
                })
                (λ a ne.
                  Ready-same k k' own (update own t (some target)) a (ground (arith, state' a))
                    (ground arith) (v.ready a));
          harts = λ h lt. HartOk-same k k' h (cpus h) (v.harts h lt);
          current = λ h a lt now.
              let was : (k.cpus h).current_tid ≡ some a = ground (arith, cpus h) in
              let other : a ≢ t = λ p. away h lt (ground arith) in
              RunsOn-same k k' own (update own t (some target)) h a (cpus h)
                (ground (arith, state' a)) (ground (arith, hart' a)) (ground arith)
                (v.current h a lt was);
          placed =
              split_at
                (λ a.
                  (h : ℕ)
                  → (k'.threads a).running_hart ≡ some h
                  → (h < max_harts) × ((k'.cpus h).current_tid ≡ some a))
                t (λ h e. absurd (ground (arith, hart' t)))
                (λ a ne h e. ground (arith, v.placed a h, hart' a, cpus h));
          busy =
              split_at
                (λ a. (k'.threads a).state ≡ running → is_some (k'.threads a).running_hart ≡ true) t
                (λ e. absurd (ground (arith, state' t)))
                (λ a ne e. ground (arith, v.busy a, state' a, hart' a));
        }

notified-Inv :
    (self target : ℕ) {k : Kernel} {q : ℕ → List ℕ} {own : ℕ → Tid}
    → Inv k q own
    → Inv (notified self target k) q own
unfolding notified
notified-Inv self target {k} {q} {own} v = elim (Bool-cases (target == cpu_current_hartid self k)) [
  | inl e ↦ rw e (
      Inv-cpus k (set_cpu self (record (k.cpus self) { need_resched = true }) k) q own v refl refl
        (λ h. ground arith))
  | inr ne ↦
      rw (ne, smp_kick_hart-ipis target k)
        (Inv-cpus k (record k { ipis = (smp_kick_hart target k).ipis }) q own v refl refl
          (λ h. record { hartid = refl; current = refl; idle = refl; cur_tf = refl }))
]

pub notified-Delivered : (self target t : ℕ) (k : Kernel) → Delivered t k (notified self target k)
unfolding notified
notified-Delivered self target t k = elim (Bool-cases (target == cpu_current_hartid self k)) [
  | inl e ↦
      rw e (record { harts = λ h. ground arith; threads = λ a ne. refl; boot = refl; ticks = refl })
  | inr ne ↦
      rw (ne, smp_kick_hart-ipis target k)
        (record { harts = λ h. SameHart-refl; threads = λ a ne. refl; boot = refl; ticks = refl })
]

notified-slices :
    (self target : ℕ) (k : Kernel) (h : ℕ)
    → ((notified self target k).cpus h).slice_left ≡ (k.cpus h).slice_left
unfolding notified
notified-slices self target k h = elim (Bool-cases (target == cpu_current_hartid self k)) [
  | inl e ↦ rw e (ground arith)
  | inr ne ↦ rw (ne, smp_kick_hart-ipis target k) refl
]

-- It changes no thread and no queue.
pub notified-others :
    (self target : ℕ) (k : Kernel)
    → ((notified self target k).threads ≡ k.threads)
      × ((notified self target k).runqueues ≡ k.runqueues)
unfolding notified
notified-others self target k = elim (Bool-cases (target == cpu_current_hartid self k)) [
  | inl e ↦ rw e (refl, refl)
  | inr ne ↦ rw (ne, smp_kick_hart-ipis target k) (refl, refl)
]

pub notify-notified :
    (self target : ℕ) (k : Kernel) → notify self target k ≡ done tt (notified self target k)
unfolding notify notified
notify-notified self target k = ground arith

module _ (self t : ℕ) (u : Thread) {k : Kernel} {q : ℕ → List ℕ} {own : ℕ → Tid} (v : Inv k q own)
    (real : max_harts ≤ t) (fits : t < thread_max) (free : own t ≡ none) (away : IsAway k t)
    (flag : u.on_rq ≡ false) (hart : u.running_hart ≡ none) (state : u.state ≢ running)
    (preferred : ℕ) (lt : preferred < max_harts) where
  -- A thread that no hart runs and no queue holds, and that is not marked RUNNING, goes to the end
  -- of the queue of the hart that the scheduler picks, whatever else its slot holds (`u`). The
  -- invariant holds again, no hart changes what it runs, and the other threads are as before.
  pub thread_make_runnable-turn :
      let target = sched_pick_target_hart preferred (set_thread t u k) in
      (k' : Kernel) × (thread_make_runnable self (some t) preferred (set_thread t u k) ≡ done tt k')
      × Inv k' (update q target (q target ++ t ∷ [])) (update own t (some target))
      × Delivered t k k'
      × ((h : ℕ) → (k'.cpus h).slice_left ≡ (k.cpus h).slice_left)
  unfolding thread_make_runnable enqueue
  thread_make_runnable-turn =
      let target = sched_pick_target_hart preferred (set_thread t u k) in
      let small = sched_pick_target_hart-lt (set_thread t u k) preferred lt in
      let (k', run, queues, only) =
        rq_push_tail-append (readied self t u v real fits free away flag hart state) target t
          (readied-Queues self t u v real fits free away flag hart state) small real fits free in
      (
        notified self target k',
        ground (arith, run, notify-notified self target k'),
        notified-Inv self target
            (pushed-Inv self t u v real fits free away flag hart state target k' queues only),
        Delivered-trans t k k' (notified self target k')
            (record {
              harts = λ h.
                  subst (SameHart (k.cpus h)) (sym (ap (λ n. n.cpus h) only.others)) SameHart-refl;
              threads = λ a ne. only.threads a ∙ ground arith;
              boot = ap (λ n. n.boot_hartid) only.others;
              ticks = ap (λ n. n.ticks) only.others;
            })
            (notified-Delivered self target t k'),
        λ h. notified-slices self target k' h ∙ ap (λ n. (n.cpus h).slice_left) only.others,
      )

  -- The same without the slices.
  pub thread_make_runnable-Inv :
      let target = sched_pick_target_hart preferred (set_thread t u k) in
      (k' : Kernel) × (thread_make_runnable self (some t) preferred (set_thread t u k) ≡ done tt k')
      × Inv k' (update q target (q target ++ t ∷ [])) (update own t (some target))
      × Delivered t k k'
  thread_make_runnable-Inv =
      let (k', run, inv, d, slices) = thread_make_runnable-turn in (k', run, inv, d)
