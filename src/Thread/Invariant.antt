-- ===== src/Thread/Invariant.antt =====
-- The invariant of the thread table, the run queues and the harts, as thread.h states it and as
-- kernel/thread.c keeps it: RUNNABLE threads, and no others, are queued, and what a hart runs is
-- on no queue and on no other hart.
use ccos.Common.{ℕ, ◌≤◌, ◌<◌, ◌≡◌, ◌≢◌, ◌⊎◌, true, none, some, List, arith, is_some, ◌∙◌}
use ccos.Kernel.{thread_max, max_harts, Tid, runnable, running, zombie, frame_of, Kernel}
use ccos.Runqueue.Links.{Queues}

-- What holds of hart `h` once it has been set up.
pub record HartOk (k : Kernel) (h : ℕ) : Type 0 where
  pub hartid : (k.cpus h).hartid ≡ h
  pub idle : is_some (k.cpus h).current_tid ≡ true → (k.cpus h).idle_tid ≡ some h

-- What holds of the thread `t` that hart `h` runs.
pub record RunsOn (k : Kernel) (own : ℕ → Tid) (h t : ℕ) : Type 0 where
  pub fits : t < thread_max
  pub unqueued : own t ≡ none
  pub running_hart : (k.threads t).running_hart ≡ some h
  pub state : ((k.threads t).state ≡ running) ⊎ ((k.threads t).state ≡ zombie)
  pub idle : t < max_harts → t ≡ h
  pub cur_tf : (k.cpus h).cur_tf ≡ frame_of t

-- The queues hold the RUNNABLE threads, but for the idle threads.
pub record Ready (k : Kernel) (own : ℕ → Tid) (t : ℕ) : Type 0 where
  pub runnable_of_queued : is_some (own t) ≡ true → (k.threads t).state ≡ runnable
  pub queued_of_runnable :
      max_harts ≤ t → t < thread_max → (k.threads t).state ≡ runnable → is_some (own t) ≡ true

pub record Inv (k : Kernel) (q : ℕ → List ℕ) (own : ℕ → Tid) : Type 0 where
  pub queues : Queues k q own
  pub ready : (t : ℕ) → Ready k own t
  pub harts : (h : ℕ) → h < max_harts → HartOk k h
  pub current : (h t : ℕ) → h < max_harts → (k.cpus h).current_tid ≡ some t → RunsOn k own h t
  pub placed :
      (t h : ℕ)
      → (k.threads t).running_hart ≡ some h
      → (h < max_harts) × ((k.cpus h).current_tid ≡ some t)
  pub busy : (t : ℕ) → (k.threads t).state ≡ running → is_some (k.threads t).running_hart ≡ true

-- The kernel is in order: the invariant holds for some queues.
abbrev pub IsSound : Kernel → Type 0
IsSound k = (q : ℕ → List ℕ) × (own : ℕ → Tid) × Inv k q own

-- No hart runs the thread.
abbrev pub IsAway : Kernel → ℕ → Type 0
IsAway k t = (h : ℕ) → h < max_harts → (k.cpus h).current_tid ≢ some t

-- The same while hart `self` is about to leave the thread `cur`, of which nothing is known but that
-- no other hart runs it, that it is not queued and that it is not waiting in RUNNABLE.
pub record Leaving (self cur : ℕ) (k : Kernel) (q : ℕ → List ℕ) (own : ℕ → Tid) : Type 0 where
  pub queues : Queues k q own
  pub ready : (t : ℕ) → t ≢ cur → Ready k own t
  pub harts : (h : ℕ) → h < max_harts → HartOk k h
  pub current :
      (h t : ℕ) → h < max_harts → h ≢ self → (k.cpus h).current_tid ≡ some t → RunsOn k own h t
  pub placed :
      (t h : ℕ)
      → (k.threads t).running_hart ≡ some h
      → (h < max_harts) × ((k.cpus h).current_tid ≡ some t)
  pub busy :
      (t : ℕ) → t ≢ cur → (k.threads t).state ≡ running → is_some (k.threads t).running_hart ≡ true
  pub here : (k.cpus self).current_tid ≡ some cur
  pub tf : (k.cpus self).cur_tf ≡ frame_of cur
  pub idle : cur < max_harts → cur ≡ self
  pub fits : cur < thread_max
  pub unqueued : own cur ≡ none
  pub alone : (h : ℕ) → h < max_harts → h ≢ self → (k.cpus h).current_tid ≢ some cur
  pub not_runnable : max_harts ≤ cur → (k.threads cur).state ≢ runnable

-- The same once hart `self` has left its thread: no thread is running on it.
pub record Between (self : ℕ) (k : Kernel) (q : ℕ → List ℕ) (own : ℕ → Tid) : Type 0 where
  pub queues : Queues k q own
  pub ready : (t : ℕ) → Ready k own t
  pub harts : (h : ℕ) → h < max_harts → HartOk k h
  pub current :
      (h t : ℕ) → h < max_harts → h ≢ self → (k.cpus h).current_tid ≡ some t → RunsOn k own h t
  pub placed :
      (t h : ℕ)
      → (k.threads t).running_hart ≡ some h
      → (h ≢ self) × (h < max_harts) × ((k.cpus h).current_tid ≡ some t)
  pub busy : (t : ℕ) → (k.threads t).state ≡ running → is_some (k.threads t).running_hart ≡ true

-- A hart that is interrupted while it runs `cur` may leave it.
pub Inv-Leaving :
    {k : Kernel} {q : ℕ → List ℕ} {own : ℕ → Tid} (self cur : ℕ)
    → Inv k q own
    → self < max_harts
    → (k.cpus self).current_tid ≡ some cur
    → Leaving self cur k q own
Inv-Leaving {k} self cur v lt now =
    let r = v.current self cur lt now in
    record {
      queues = v.queues;
      ready = λ t _. v.ready t;
      harts = v.harts;
      current = λ h t small ne. v.current h t small;
      placed = v.placed;
      busy = λ t _. v.busy t;
      here = now;
      tf = r.cur_tf;
      idle = r.idle;
      fits = r.fits;
      unqueued = r.unqueued;
      alone =
          λ h small ne e. ground (arith, (v.current h cur small e).running_hart, r.running_hart);
      not_runnable = λ real e. ground (arith, r.state);
    }

pub Ready-same :
    (k k' : Kernel) (own own' : ℕ → Tid) (t : ℕ)
    → (k'.threads t).state ≡ (k.threads t).state
    → own' t ≡ own t
    → Ready k own t
    → Ready k' own' t
Ready-same k k' own own' t state owner r = record {
  runnable_of_queued = λ o. ground (arith, r.runnable_of_queued);
  queued_of_runnable = λ real fits e. ground (arith, r.queued_of_runnable real fits);
}

pub HartOk-same : (k k' : Kernel) (h : ℕ) → k'.cpus h ≡ k.cpus h → HartOk k h → HartOk k' h
HartOk-same k k' h same_cpu o = record {
  hartid = ground (arith, o.hartid);
  idle = λ now. ground (arith, o.idle);
}

pub RunsOn-same :
    (k k' : Kernel) (own own' : ℕ → Tid) (h t : ℕ)
    → k'.cpus h ≡ k.cpus h
    → (k'.threads t).state ≡ (k.threads t).state
    → (k'.threads t).running_hart ≡ (k.threads t).running_hart
    → own' t ≡ own t
    → RunsOn k own h t
    → RunsOn k' own' h t
RunsOn-same k k' own own' h t same_cpu state hart owner r = record {
  fits = r.fits;
  unqueued = owner ∙ r.unqueued;
  running_hart = hart ∙ r.running_hart;
  state = ground (arith, r.state);
  idle = r.idle;
  cur_tf = ground (arith, r.cur_tf);
}
