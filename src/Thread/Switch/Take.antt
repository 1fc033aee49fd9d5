-- ===== src/Thread/Switch/Take.antt =====
-- The second half of `schedule` (kernel/thread.c): the hart takes up the next thread.
use ccos.Common.{
  ℕ, ◌<◌, ◌≡◌, refl, ◌≢◌, true, none, some, List, arith, is_some, split_at, sym, ap, ◌∙◌,
  Option-cases, inl, inr,
}
use ccos.Kernel.{thread_max, max_harts, Tid, running, Kernel, update}
use ccos.Runqueue.Links.{Queues, Queues-same, OnlyQueues}
use ccos.Thread.{thread_mark_running}
use ccos.Thread.Switch.{switch_to}
use ccos.Thread.Invariant.{
  HartOk, RunsOn, Ready, Inv, Ready-same, HartOk-same, RunsOn-same, Between,
}
use mathlib.Core.Path.{subst}

-- Hart `self` is about to run `next`, which is on no queue any more.
pub record Taking (self next : ℕ) (k : Kernel) (q : ℕ → List ℕ) (own : ℕ → Tid) : Type 0 where
  pub queues : Queues k q own
  ready : (t : ℕ) → t ≢ next → Ready k own t
  harts : (h : ℕ) → h < max_harts → HartOk k h
  current :
      (h t : ℕ) → h < max_harts → h ≢ self → (k.cpus h).current_tid ≡ some t → RunsOn k own h t
  placed :
      (t h : ℕ)
      → t ≢ next
      → (k.threads t).running_hart ≡ some h
      → (h ≢ self) × (h < max_harts) × ((k.cpus h).current_tid ≡ some t)
  busy :
      (t : ℕ) → t ≢ next → (k.threads t).state ≡ running → is_some (k.threads t).running_hart ≡ true
  fits : next < thread_max
  unqueued : own next ≡ none
  alone : (h : ℕ) → h < max_harts → h ≢ self → (k.cpus h).current_tid ≢ some next
  idle : next < max_harts → next ≡ self
  hartid : (k.cpus self).hartid ≡ self
  idle_tid : (k.cpus self).idle_tid ≡ some self

module _ (self next : ℕ) (cur : Tid) {k : Kernel} {q : ℕ → List ℕ} {own : ℕ → Tid}
    (v : Taking self next k q own) (lt : self < max_harts) where
  abbrev after : Kernel
  after = switch_to self cur next k

  after-other : (t : ℕ) → t ≢ next → after.threads t ≡ k.threads t
  unfolding switch_to
  after-other t ne = ground arith

  after-cpu : (h : ℕ) → h ≢ self → after.cpus h ≡ k.cpus h
  unfolding switch_to
  after-cpu h ne = ground arith

  after-Queues : Queues after q own
  unfolding switch_to thread_mark_running
  after-Queues =
      Queues-same k after q own v.queues (λ t o. ground arith) (λ t. ground arith) (λ h. refl)

  after-next : RunsOn after own self next
  unfolding switch_to thread_mark_running
  after-next = record {
    fits = v.fits;
    unqueued = v.unqueued;
    running_hart = ground (arith, v.hartid);
    state = ground arith;
    idle = v.idle;
    cur_tf = ground arith;
  }

  after_self : ((after.cpus self).current_tid ≡ some next) × HartOk after self
  unfolding switch_to
  after_self = (
    ground arith,
    record { hartid = ground (arith, v.hartid); idle = λ now. ground (arith, v.idle_tid) },
  )

  pub switch_to-Inv : Inv after q own
  switch_to-Inv = record {
    queues = after-Queues;
    ready =
        split_at (Ready after own) next
          (record {
            runnable_of_queued = λ o. absurd (ground (arith, v.unqueued));
            queued_of_runnable = λ r f e. absurd (ground (arith, after-next.state));
          })
          (λ t ne. Ready-same k after own own t (rw (after-other t ne)) refl (v.ready t ne));
    harts =
        split_at (λ h. h < max_harts → HartOk after h) self (λ small. after_self.1)
          (λ h ne small. HartOk-same k after h (after-cpu h ne) (v.harts h small));
    current = λ h t small now.
        split_at (λ h. h < max_harts → (after.cpus h).current_tid ≡ some t → RunsOn after own h t)
          self
          (λ small' now'. subst (RunsOn after own self) (ground (arith, after_self.0)) after-next)
          (λ h' ne small' now'.
            let was : (k.cpus h').current_tid ≡ some t = ground (arith, after-cpu h' ne) in
            let other : t ≢ next = λ p. v.alone h' small' ne (ground arith) in
            RunsOn-same k after own own h' t (after-cpu h' ne) (rw (after-other t other))
              (rw (after-other t other)) refl (v.current h' t small' ne was))
          h small now;
    placed =
        split_at
          (λ t.
            (h : ℕ)
            → (after.threads t).running_hart ≡ some h
            → (h < max_harts) × ((after.cpus h).current_tid ≡ some t))
          next
          (λ h e.
            let p : self ≡ h = ground (arith, after-next.running_hart) in
            subst (λ g. (g < max_harts) × ((after.cpus g).current_tid ≡ some next)) p
              (lt, after_self.0))
          (λ t ne h e.
            let (away, small, now) = v.placed t h ne (ground (arith, after-other t ne)) in
            (small, ground (arith, after-cpu h away)));
    busy =
        split_at
          (λ t. (after.threads t).state ≡ running → is_some (after.threads t).running_hart ≡ true)
          next (λ e. ground (arith, after-next.running_hart))
          (λ t ne e. ground (arith, v.busy t ne, after-other t ne));
  }

-- With an empty queue the hart takes up its idle thread.
pub idle-Taking :
    (self : ℕ) {k : Kernel} {q : ℕ → List ℕ} {own : ℕ → Tid}
    → Between self k q own
    → self < max_harts
    → (k.cpus self).idle_tid ≡ some self
    → Taking self self k q own
idle-Taking self {own} v lt idle = record {
  queues = v.queues;
  ready = λ t _. v.ready t;
  harts = v.harts;
  current = v.current;
  placed = λ t h _. v.placed t h;
  busy = λ t _. v.busy t;
  fits = omega arith;
  unqueued = elim (Option-cases (own self)) [
    | inl e ↦ e
    | inr (h, e) ↦ let range = v.queues.owned self h e in absurd (omega arith)
  ];
  alone = λ h small ne now. ne (sym ((v.current h self small ne now).idle lt));
  idle = λ _. refl;
  hartid = (v.harts self lt).hartid;
  idle_tid = idle;
}

-- Otherwise it takes up the thread that was popped.
pub popped-Taking :
    (self x : ℕ) (xs : List ℕ) {k : Kernel} (k1 : Kernel) {q : ℕ → List ℕ} {own : ℕ → Tid}
    → Between self k q own
    → self < max_harts
    → (k.cpus self).idle_tid ≡ some self
    → own x ≡ some self
    → Queues k1 (update q self xs) (update own x none)
    → OnlyQueues k k1
    → Taking self x k1 (update q self xs) (update own x none)
popped-Taking self x xs {k} k1 {q} {own} v lt idle mine queues only =
    let state : (t : ℕ) → (k1.threads t).state ≡ (k.threads t).state =
      λ t. ap (λ u. u.state) (only.threads t) in
    let hart : (t : ℕ) → (k1.threads t).running_hart ≡ (k.threads t).running_hart =
      λ t. ap (λ u. u.running_hart) (only.threads t) in
    let cpus : (h : ℕ) → k1.cpus h ≡ k.cpus h = λ h. ap (λ n. n.cpus h) only.others in
    let alone : (h : ℕ) → h < max_harts → h ≢ self → (k.cpus h).current_tid ≢ some x =
      λ h small ne now. ground (arith, (v.current h x small ne now).unqueued) in
    let range = v.queues.owned x self mine in
    record {
      queues = queues;
      ready =
          λ t ne. Ready-same k k1 own (update own x none) t (state t) (ground arith) (v.ready t);
      harts = λ h small. HartOk-same k k1 h (cpus h) (v.harts h small);
      current = λ h t small ne now.
          let was : (k.cpus h).current_tid ≡ some t = ground (arith, cpus h) in
          let other : t ≢ x = λ p. alone h small ne (ground arith) in
          RunsOn-same k k1 own (update own x none) h t (cpus h) (state t) (hart t) (ground arith)
            (v.current h t small ne was);
      placed = λ t h ne e.
          let (away, small, now) = v.placed t h (sym (hart t) ∙ e) in
          (away, small, ground (arith, cpus h));
      busy = λ t ne e. ground (arith, v.busy t, hart t, state t);
      fits = range.2;
      unqueued = ground arith;
      alone = λ h small ne e. alone h small ne (ground (arith, cpus h));
      idle = λ small. absurd (omega arith);
      hartid = ground (arith, cpus self, (v.harts self lt).hartid);
      idle_tid = ground (arith, cpus self);
    }
