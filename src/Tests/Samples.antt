-- ===== src/Tests/Samples.antt =====
-- A kernel with two threads on the queue of hart 0, which runs its idle thread.
use ccos.Common.{
  ℕ, ◌<◌, refl, inl, inr, true, false, none, some, List, [], ◌∷◌, arith, ltb, ◌==◌, if◌then◌else◌,
  codes, ℤ, Bool-cases, split_at,
}
use ccos.Kernel.{
  max_harts, Tid, unused, runnable, running, zero_tf, Thread, null, frame_of, Cpu, Kernel,
}
use ccos.Runqueue.Links.{IsQueue, Queues}
use ccos.Thread.Invariant.{Inv}

abbrev pub free_slot : ℕ → Thread
free_slot t = record {
  id = t;
  state = unused;
  wakeup_tick = 0;
  name = codes "unused";
  is_user = false;
  can_be_killed = false;
  detached = false;
  running_hart = none;
  last_hart = none;
  migrations = 0;
  runs = 0;
  rq_next = none;
  on_rq = false;
  tf = zero_tf;
  stack_base = 0;
  exit_code = ℤ.pos 0;
  join_waiter = none;
  waiting_for = none;
  join_status_ptr = 0;
  pending_read_buf = 0;
  pending_read_len = 0;
}

-- Slot 0 runs on hart 0, the other idle threads wait, 4 and 5 are queued, the rest is free.
abbrev pub sample_thread : ℕ → Thread
sample_thread t =
    if t == 0
    then record (free_slot t) { state = running; running_hart = some 0 }
    else if ltb t 4
    then record (free_slot t) { state = runnable }
    else if t == 4
    then record (free_slot t) {
      state = runnable;
      on_rq = true;
      rq_next = some 5;
      can_be_killed = true;
    }
    else if t == 5
    then record (free_slot t) { state = runnable; on_rq = true; can_be_killed = true }
    else free_slot t

abbrev pub sample_cpu : ℕ → Cpu
sample_cpu h = record {
  kstack_top = 0;
  cur_tf = if h == 0 then frame_of 0 else null;
  hartid = h;
  online = h == 0;
  current_tid = if h == 0 then some 0 else none;
  idle_tid = some h;
  timer_irqs = 0;
  ctx_switches = 0;
  need_resched = false;
  slice_left = 5;
}

abbrev pub sample : Kernel
sample = record {
  threads = sample_thread;
  runqueues = λ h.
      if h == 0
      then record { head = some 4; tail = some 5; len = 2 }
      else record { head = none; tail = none; len = 0 };
  cpus = sample_cpu;
  boot_hartid = 0;
  smp_boot_done = true;
  ticks = 0;
  stdin_waiter = none;
  bootstrap_tf = zero_tf;
  ipis = [];
  stores = [];
}

abbrev pub sample_q : ℕ → List ℕ
sample_q h = if h == 0 then 4 ∷ 5 ∷ [] else []

abbrev pub sample_own : ℕ → Tid
sample_own t = if t == 4 then some 0 else if t == 5 then some 0 else none

sample-IsQueue : (h : ℕ) → h < max_harts → IsQueue sample h (sample_q h)
sample-IsQueue =
    split_at (λ h. h < max_harts → IsQueue sample h (sample_q h)) 0
      (λ lt. record {
        links = (refl, (refl, refl));
        tail = refl;
        len = refl;
        distinct = (refl, (refl, tt));
      })
      (λ h ne lt. elim (Bool-cases (h == 0)) [
        | inl e ↦ absurd (ground arith)
        | inr e ↦ rw e (record {
          links = ground arith;
          tail = ground arith;
          len = ground arith;
          distinct = tt;
        })
      ])

pub sample-Queues : Queues sample sample_q sample_own
sample-Queues = record {
  each = sample-IsQueue;
  member = λ h t lt. ground arith;
  flagged = λ t. ground arith;
  owned = λ t h e. ground arith;
}

pub sample-Inv : Inv sample sample_q sample_own
sample-Inv = record {
  queues = sample-Queues;
  ready = λ t. record {
    runnable_of_queued = λ o. ground arith;
    queued_of_runnable = λ real fits e. ground arith;
  };
  harts = λ h lt. record { hartid = refl; idle = λ now. refl };
  current = λ h t lt now. record {
    fits = ground arith;
    unqueued = ground arith;
    running_hart = ground arith;
    state = ground arith;
    idle = λ small. ground arith;
    cur_tf = ground arith;
  };
  placed = λ t h e. ground arith;
  busy = λ t e. ground arith;
}
