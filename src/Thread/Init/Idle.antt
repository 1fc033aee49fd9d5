-- ===== src/Thread/Init/Idle.antt =====
-- `cpu_enter_idle` of kernel/cpu.c: a hart takes up its idle thread.
use ccos.Common.{
  ℕ, ◌<◌, ◌≡◌, refl, ◌≢◌, inl, inr, true, none, some, List, arith, ltb, ◌==◌, is_some, Option-cases,
  split_at,
}
use ccos.Kernel.{max_harts, Tid, running, frame_of, Kernel, set_thread, set_cpu}
use ccos.Kernel.Run.{done}
use ccos.Thread.{thread_mark_running}
use ccos.Thread.Init.{cpu_enter_idle}
use ccos.Thread.Invariant.{
  HartOk, RunsOn, Ready, Inv, IsSound, IsAway, Ready-same, HartOk-same, RunsOn-same,
}
use ccos.Runqueue.Links.{Queues-same}
use mathlib.Core.Path.{subst}

module _ (h : ℕ) (lt : h < max_harts) {k : Kernel} {q : ℕ → List ℕ} {own : ℕ → Tid}
    (v : Inv k q own) (off : (k.cpus h).current_tid ≡ none) where
  idle-unqueued : own h ≡ none
  idle-unqueued = elim (Option-cases (own h)) [
    | inl e ↦ e
    | inr (g, e) ↦ absurd (ground (arith, v.queues.owned h g e))
  ]

  -- No other hart runs it.
  idle-IsAway : IsAway k h
  idle-IsAway g small now = ground (arith, (v.current g h small now).idle lt)

  abbrev entered : Kernel
  entered =
      let c = k.cpus h in
      let k1 =
        set_cpu h (record c { idle_tid = some h; current_tid = some h; cur_tf = frame_of h }) k in
      set_thread h (thread_mark_running h (record (k1.threads h) { state = running })) k1

  entered-current :
      (g t : ℕ) → g < max_harts → (entered.cpus g).current_tid ≡ some t → RunsOn entered own g t
  unfolding thread_mark_running
  entered-current =
      split_at
        (λ g.
          (t : ℕ) → g < max_harts → (entered.cpus g).current_tid ≡ some t → RunsOn entered own g t)
        h
        (λ t small now.
          let me : h ≡ t = ground arith in
          subst (RunsOn entered own h) me (record {
            fits = ground arith;
            unqueued = idle-unqueued;
            running_hart = ground arith;
            state = inl (ground arith);
            idle = λ l. refl;
            cur_tf = ground arith;
          }))
        (λ g ne t small now.
          let was : (k.cpus g).current_tid ≡ some t = ground arith in
          let other : t ≢ h = λ e. idle-IsAway g small (ground arith) in
          RunsOn-same k entered own own g t (ground arith) (ground arith) (ground arith) refl
            (v.current g t small was))

  entered-placed :
      (t g : ℕ)
      → (entered.threads t).running_hart ≡ some g
      → (g < max_harts) × ((entered.cpus g).current_tid ≡ some t)
  unfolding thread_mark_running
  entered-placed =
      split_at
        (λ t.
          (g : ℕ)
          → (entered.threads t).running_hart ≡ some g
          → (g < max_harts) × ((entered.cpus g).current_tid ≡ some t))
        h (λ g e. ground arith)
        (λ t ne g e.
          let (small, now) = v.placed t g (ground arith) in
          let other : g ≢ h = λ p. ground arith in ground arith)

  entered-Inv : Inv entered q own
  unfolding thread_mark_running
  entered-Inv = record {
    queues =
        Queues-same k entered q own v.queues
          (split_at
            (λ a. is_some (own a) ≡ true → (entered.threads a).rq_next ≡ (k.threads a).rq_next) h
            (λ o. ground arith) (λ a ne o. ground arith))
          (split_at (λ a. (entered.threads a).on_rq ≡ (k.threads a).on_rq) h (ground arith)
            (λ a ne. ground arith))
          (λ g. refl);
    ready =
        split_at (Ready entered own) h
          (record {
            runnable_of_queued = λ o. absurd (ground (arith, idle-unqueued));
            queued_of_runnable = λ real f e. absurd (ground arith);
          })
          (λ a ne. Ready-same k entered own own a (ground arith) refl (v.ready a));
    harts =
        split_at (λ g. g < max_harts → HartOk entered g) h
          (λ small. record {
            hartid = ground (arith, (v.harts h lt).hartid);
            idle = λ now. ground arith;
          })
          (λ g ne small. HartOk-same k entered g (ground arith) (v.harts g small));
    current = entered-current;
    placed = entered-placed;
    busy =
        split_at
          (λ a.
            (entered.threads a).state ≡ running → is_some (entered.threads a).running_hart ≡ true)
          h (λ e. ground arith) (λ a ne e. ground (arith, v.busy a));
  }

  -- A hart that runs nothing yet enters its idle thread, in a sound kernel: the asserts hold.
  pub cpu_enter_idle-IsSound :
      (k' : Kernel) × (cpu_enter_idle h k ≡ done tt k')
      × ((k'.cpus h).current_tid ≡ some h)
      × IsSound k'
  unfolding cpu_enter_idle
  cpu_enter_idle-IsSound =
      let fits : ltb h max_harts ≡ true = ground arith in
      let me : ((k.cpus h).hartid == h) ≡ true = ground (arith, (v.harts h lt).hartid) in
      (entered, rw (fits, me) refl, ground arith, (q, own, entered-Inv))
