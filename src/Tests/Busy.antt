-- ===== src/Tests/Busy.antt =====
-- A kernel in which hart 0 runs thread 4, hart 1 its idle thread, and hart 2 thread 9, which has been
-- killed. Thread 5 is queued, 6 is dead, 7 waits in a join for 4, 8 sleeps and 10 waits for input.
use ccos.Common.{
  ℕ, ◌<◌, refl, ◌≢◌, inl, inr, true, none, some, List, [], ◌∷◌, arith, ltb, ◌==◌, if◌then◌else◌, ℤ,
  Bool-cases, split_at,
}
use ccos.Kernel.{
  max_harts, Tid, runnable, running, sleeping, waiting, zombie, blocked, Thread, null, frame_of,
  Cpu, Kernel, Machine,
}
use ccos.Runqueue.Links.{IsQueue, Queues}
use ccos.Thread.Invariant.{Inv, IsSound, IsAway}
use ccos.Tests.Samples.{free_slot, sample_cpu, sample}

abbrev pub machine : Machine
machine = record {
  idle_main = 0x80200000;
  thread_stacks = 0x80400000;
  kstacks = 0x80300000;
  sstatus = 0x122;
}

abbrev pub busy_thread : ℕ → Thread
busy_thread t =
    if t == 1
    then record (free_slot t) { state = running; running_hart = some 1 }
    else if ltb t 4
    then record (free_slot t) { state = runnable }
    else if t == 4
    then record (free_slot t) {
      state = running;
      running_hart = some 0;
      can_be_killed = true;
      join_waiter = some 7;
    }
    else if t == 5
    then record (free_slot t) { state = runnable; on_rq = true; can_be_killed = true }
    else if t == 6
    then record (free_slot t) { state = zombie; exit_code = ℤ.pos 3 }
    else if t == 7
    then record (free_slot t) { state = waiting; waiting_for = some 4; join_status_ptr = 64 }
    else if t == 8
    then record (free_slot t) { state = sleeping; wakeup_tick = 1 }
    else if t == 9
    then record (free_slot t) { state = zombie; running_hart = some 2 }
    else if t == 10
    then record (free_slot t) { state = blocked; pending_read_buf = 512; pending_read_len = 8 }
    else free_slot t

-- The thread of each hart.
abbrev pub busy_tid : ℕ → Tid
busy_tid h = if h == 0 then some 4 else if h == 1 then some 1 else if h == 2 then some 9 else none

abbrev pub busy_cpu : ℕ → Cpu
busy_cpu h = record (sample_cpu h) {
  cur_tf =
      if h == 0
      then frame_of 4
      else if h == 1
      then frame_of 1
      else if h == 2
      then frame_of 9
      else null;
  online = ltb h 3;
  current_tid = busy_tid h;
}

abbrev pub busy : Kernel
busy = record sample {
  threads = busy_thread;
  runqueues = λ h.
      if h == 0
      then record { head = some 5; tail = some 5; len = 1 }
      else record { head = none; tail = none; len = 0 };
  cpus = busy_cpu;
  stdin_waiter = some 10;
}

abbrev pub busy_q : ℕ → List ℕ
busy_q h = if h == 0 then 5 ∷ [] else []

abbrev pub busy_own : ℕ → Tid
busy_own t = if t == 5 then some 0 else none

busy-IsQueue : (h : ℕ) → h < max_harts → IsQueue busy h (busy_q h)
busy-IsQueue =
    split_at (λ h. h < max_harts → IsQueue busy h (busy_q h)) 0
      (λ lt. record { links = (refl, refl); tail = refl; len = refl; distinct = (refl, tt) })
      (λ h ne lt. elim (Bool-cases (h == 0)) [
        | inl e ↦ absurd (ground arith)
        | inr e ↦ rw e (record {
          links = ground arith;
          tail = ground arith;
          len = ground arith;
          distinct = tt;
        })
      ])

busy-Queues : Queues busy busy_q busy_own
busy-Queues = record {
  each = busy-IsQueue;
  member = λ h t lt. ground arith;
  flagged = λ t. ground arith;
  owned = λ t h e. ground arith;
}

pub busy-Inv : Inv busy busy_q busy_own
busy-Inv = record {
  queues = busy-Queues;
  ready = λ t. record {
    runnable_of_queued = λ o. ground arith;
    queued_of_runnable = λ real fits e. ground arith;
  };
  harts = λ h lt. record { hartid = refl; idle = λ now. refl };
  current = λ h t lt now. record {
    fits = ground arith;
    unqueued = ground arith;
    running_hart = ground arith;
    state = ground arith;
    idle = λ small. ground arith;
    cur_tf = ground arith;
  };
  placed = λ t h e. ground arith;
  busy = λ t e. ground arith;
}

pub busy-IsSound : IsSound busy
busy-IsSound = (busy_q, busy_own, busy-Inv)

-- The dead thread 6 is on no hart.
pub busy-IsAway : (t : ℕ) → t ≢ 4 → t ≢ 1 → t ≢ 9 → IsAway busy t
busy-IsAway t a b c h lt now = ground arith
