-- ===== src/Thread/Frame.antt =====
-- Changes that the invariant of the thread table survives (kernel/thread.c).
use ccos.Common.{
  ℕ, ◌<◌, ◌≡◌, refl, sym, ◌∙◌, ◌≢◌, ◌⊎◌, true, some, List, arith, is_some, split_at, false, none,
}
use ccos.Kernel.{max_harts, Tid, running, zombie, Cpu, Kernel, runnable}
use ccos.Runqueue.Links.{Queues-same, off_queue}
use ccos.Thread.Invariant.{RunsOn, Ready, Inv, Ready-same, HartOk-same, RunsOn-same, Leaving}

-- What the invariant reads of a hart is unchanged.
pub record SameHart (c d : Cpu) : Type 0 where
  pub hartid : d.hartid ≡ c.hartid
  pub current : d.current_tid ≡ c.current_tid
  pub idle : d.idle_tid ≡ c.idle_tid
  pub cur_tf : d.cur_tf ≡ c.cur_tf

pub SameHart-refl : {c : Cpu} → SameHart c c
SameHart-refl = record { hartid = refl; current = refl; idle = refl; cur_tf = refl }

-- From `k` to `k'` the harts run what they ran, and of the threads other than `t` only queue fields
-- have changed.
pub record Delivered (t : ℕ) (k k' : Kernel) : Type 0 where
  pub harts : (h : ℕ) → SameHart (k.cpus h) (k'.cpus h)
  pub threads : (a : ℕ) → a ≢ t → off_queue (k'.threads a) ≡ off_queue (k.threads a)
  pub boot : k'.boot_hartid ≡ k.boot_hartid
  pub ticks : k'.ticks ≡ k.ticks

pub SameHart-trans : {c d e : Cpu} → SameHart c d → SameHart d e → SameHart c e
SameHart-trans x y = record {
  hartid = y.hartid ∙ x.hartid;
  current = y.current ∙ x.current;
  idle = y.idle ∙ x.idle;
  cur_tf = y.cur_tf ∙ x.cur_tf;
}

pub Delivered-trans : (t : ℕ) (k l m : Kernel) → Delivered t k l → Delivered t l m → Delivered t k m
Delivered-trans t k l m a b = record {
  harts = λ h. SameHart-trans (a.harts h) (b.harts h);
  threads = λ c ne. b.threads c ne ∙ a.threads c ne;
  boot = b.boot ∙ a.boot;
  ticks = b.ticks ∙ a.ticks;
}

pub Inv-cpus :
    (k k' : Kernel) (q : ℕ → List ℕ) (own : ℕ → Tid)
    → Inv k q own
    → k'.threads ≡ k.threads
    → k'.runqueues ≡ k.runqueues
    → ((h : ℕ) → SameHart (k.cpus h) (k'.cpus h))
    → Inv k' q own
Inv-cpus k k' q own v ts rqs cpus = record {
  queues = Queues-same k k' q own v.queues (λ t o. rw ts) (λ t. rw ts) (λ h. rw rqs);
  ready = λ t. Ready-same k k' own own t (rw ts) refl (v.ready t);
  harts = λ h lt.
      let s = cpus h in
      let o = v.harts h lt in
      record { hartid = s.hartid ∙ o.hartid; idle = λ now. ground (arith, o.idle) };
  current = λ h t lt now.
      let s = cpus h in
      let r = v.current h t lt (sym s.current ∙ now) in
      record {
        fits = r.fits;
        unqueued = r.unqueued;
        running_hart = rw ts r.running_hart;
        state = rw ts r.state;
        idle = r.idle;
        cur_tf = s.cur_tf ∙ r.cur_tf;
      };
  placed = λ t h e. let (lt, now) = v.placed t h (rw ts at e) in (lt, (cpus h).current ∙ now);
  busy = λ t e. rw ts (v.busy t (rw ts at e));
}

-- One thread changes, and neither its queue fields nor the hart that it runs on.
pub Inv-thread :
    (t : ℕ) (k k' : Kernel) (q : ℕ → List ℕ) (own : ℕ → Tid)
    → Inv k q own
    → ((a : ℕ) → a ≢ t → k'.threads a ≡ k.threads a)
    → k'.runqueues ≡ k.runqueues
    → k'.cpus ≡ k.cpus
    → (k'.threads t).on_rq ≡ (k.threads t).on_rq
    → (is_some (own t) ≡ true → (k'.threads t).rq_next ≡ (k.threads t).rq_next)
    → (k'.threads t).running_hart ≡ (k.threads t).running_hart
    → Ready k' own t
    → ((h : ℕ)
        → RunsOn k own h t
        → ((k'.threads t).state ≡ running) ⊎ ((k'.threads t).state ≡ zombie))
    → ((k'.threads t).state ≡ running → is_some (k'.threads t).running_hart ≡ true)
    → Inv k' q own
Inv-thread t k k' q own v others rqs cpus flag next hart ready state busy = record {
  queues =
      Queues-same k k' q own v.queues
        (split_at (λ a. is_some (own a) ≡ true → (k'.threads a).rq_next ≡ (k.threads a).rq_next) t
          next (λ a ne o. rw (others a ne)))
        (split_at (λ a. (k'.threads a).on_rq ≡ (k.threads a).on_rq) t flag
          (λ a ne. rw (others a ne)))
        (λ h. rw rqs);
  ready =
      split_at (Ready k' own) t ready
        (λ a ne. Ready-same k k' own own a (rw (others a ne)) refl (v.ready a));
  harts = λ h lt. HartOk-same k k' h (rw cpus) (v.harts h lt);
  current = λ h a lt now.
      let was : (k.cpus h).current_tid ≡ some a = ground (arith, cpus) in
      split_at (λ b. RunsOn k own h b → RunsOn k' own h b) t
        (λ r. record {
          fits = r.fits;
          unqueued = r.unqueued;
          running_hart = hart ∙ r.running_hart;
          state = state h r;
          idle = r.idle;
          cur_tf = rw cpus r.cur_tf;
        })
        (λ b ne r.
          RunsOn-same k k' own own h b (rw cpus) (rw (others b ne)) (rw (others b ne)) refl r)
        a (v.current h a lt was);
  placed =
      split_at
        (λ a.
          (h : ℕ)
          → (k'.threads a).running_hart ≡ some h
          → (h < max_harts) × ((k'.cpus h).current_tid ≡ some a))
        t (λ h e. ground (arith, v.placed t h, hart, cpus))
        (λ a ne h e. ground (arith, v.placed a h, others a ne, cpus));
  busy =
      split_at (λ a. (k'.threads a).state ≡ running → is_some (k'.threads a).running_hart ≡ true) t
        busy (λ a ne e. ground (arith, v.busy a, others a ne));
}

-- What the hart's own thread may become before the hart leaves it: anything that is not RUNNABLE
-- and not queued, and that still counts as running on the hart or on none.
pub stopped-Leaving :
    (self cur : ℕ) (k k' : Kernel) (q : ℕ → List ℕ) (own : ℕ → Tid)
    → Inv k q own
    → self < max_harts
    → (k.cpus self).current_tid ≡ some cur
    → ((a : ℕ) → a ≢ cur → k'.threads a ≡ k.threads a)
    → k'.runqueues ≡ k.runqueues
    → k'.cpus ≡ k.cpus
    → (k'.threads cur).on_rq ≡ false
    → ((k'.threads cur).running_hart ≡ (k.threads cur).running_hart)
      ⊎ ((k'.threads cur).running_hart ≡ none)
    → (k'.threads cur).state ≢ runnable
    → Leaving self cur k' q own
stopped-Leaving self cur k k' q own v lt now others rqs cpus flag hart state =
    let r = v.current self cur lt now in
    let alone : (h : ℕ) → h < max_harts → h ≢ self → (k.cpus h).current_tid ≢ some cur =
      λ h small ne e. ground (arith, (v.current h cur small e).running_hart, r.running_hart) in
    record {
      queues =
          Queues-same k k' q own v.queues
            (split_at (λ a. is_some (own a) ≡ true → (k'.threads a).rq_next ≡ (k.threads a).rq_next)
              cur (λ o. absurd (ground (arith, r.unqueued))) (λ a ne o. rw (others a ne)))
            (split_at (λ a. (k'.threads a).on_rq ≡ (k.threads a).on_rq) cur
              (ground (arith, flag, v.queues.flagged cur, r.unqueued)) (λ a ne. rw (others a ne)))
            (λ h. rw rqs);
      ready = λ a ne. Ready-same k k' own own a (rw (others a ne)) refl (v.ready a);
      harts = λ h small. HartOk-same k k' h (rw cpus) (v.harts h small);
      current = λ h a small ne e.
          let was : (k.cpus h).current_tid ≡ some a = ground (arith, cpus) in
          let other : a ≢ cur = λ p. alone h small ne (ground arith) in
          RunsOn-same k k' own own h a (rw cpus) (rw (others a other)) (rw (others a other)) refl
            (v.current h a small was);
      placed =
          split_at
            (λ a.
              (h : ℕ)
              → (k'.threads a).running_hart ≡ some h
              → (h < max_harts) × ((k'.cpus h).current_tid ≡ some a))
            cur (λ h e. ground (arith, v.placed cur h, hart, cpus))
            (λ a ne h e. ground (arith, v.placed a h, others a ne, cpus));
      busy = λ a ne e. ground (arith, v.busy a, others a ne);
      here = ground (arith, cpus);
      tf = ground (arith, cpus, r.cur_tf);
      idle = r.idle;
      fits = r.fits;
      unqueued = r.unqueued;
      alone = λ h small ne e. alone h small ne (ground (arith, cpus));
      not_runnable = λ real e. state e;
    }
