-- ===== src/Thread/Switch.antt =====
-- kernel/thread.c: `schedule`, `threads_tick`, `thread_block` and `thread_wake`.
pub mod Leave
pub mod Take
pub mod Schedule
pub mod Tick
pub mod Block
use ccos.Common.{
  ℕ, zero, suc, ◌+◌, Bool, false, not, ◌&&◌, ◌||◌, none, some, ltb, leb, if◌then◌else◌, same,
  is_some,
}
use ccos.Kernel.{
  thread_max, sched_slice_ticks, Tid, runnable, running, sleeping, zombie, blocked, in_state,
  Thread, TfPtr, frame_of, Kernel, same_tf, set_thread, set_cpu,
}
use ccos.Kernel.Run.{
  done, out_of_fuel, Cmd, pure, and_then, ◌>>=◌, ◌>>◌, get, modify, assert, edit, the_tid,
}
use ccos.Runqueue.{rq_push_tail, rq_pop_head}
use ccos.Cpu.{cpu_current_hartid}
use ccos.Thread.{thread_make_runnable, thread_mark_running, thread_mark_not_running, recycle_thread}
use ccos.Common.{◌%◌, ◌^◌}

-- A thread that is still running, and is not idle, goes back to the end of the hart's queue.
pub put_back : ℕ → ℕ → Bool → Cmd (Unit {0})
put_back hart cur idle k =
    if not idle && in_state (k.threads cur).state running
    then (do edit cur λ t. record t { state = runnable }; rq_push_tail hart (some cur)) k
    else done tt k

-- `t->join_waiter >= 0 && t->join_waiter < THREAD_MAX`
abbrev pub has_joiner : Thread → Bool
has_joiner t = elim t.join_waiter [ none ↦ false | some j ↦ ltb j thread_max ]

-- A thread that has exited is recycled here if somebody joined it or it is detached.
reap : ℕ → Bool → Kernel → Kernel
reap cur idle k =
    if not idle
      && (in_state (k.threads cur).state zombie
          && (has_joiner (k.threads cur) || (k.threads cur).detached))
    then recycle_thread cur k
    else k

-- What `schedule` does to the thread that it switches away from.
pub leave : ℕ → ℕ → Bool → Cmd (Unit {0})
unfolding put_back reap
leave hart cur idle = do
  put_back hart cur idle
  edit cur thread_mark_not_running
  edit cur λ t. if idle then record t { state = runnable } else t
  modify (reap cur idle)

-- The loop that pops the queue until it finds a thread that is RUNNABLE; -1 is an empty queue.
pub next_loop : ℕ → ℕ → Cmd Tid
next_loop zero hart k = out_of_fuel
next_loop (suc f) hart k =
    let rest = next_loop f hart in
    and_then (rq_pop_head hart k) λ found. elim found [
      | none ↦ done none
      | some t ↦ λ k'. if in_state (k'.threads t).state runnable then done (some t) k' else rest k'
    ]

-- The hart takes up `next`: the end of `schedule`.
pub switch_to : ℕ → Tid → ℕ → Kernel → Kernel
switch_to self cur next k =
    let c = k.cpus self in
    set_cpu self
      (record c {
        current_tid = some next;
        slice_left = sched_slice_ticks;
        need_resched = false;
        ctx_switches =
            if same (some next) cur then c.ctx_switches else (c.ctx_switches + 1) % 2 ^ 64;
        cur_tf = frame_of next;
      })
      (set_thread next (thread_mark_running c.hartid (record (k.threads next) { state = running }))
        k)

-- The result is the new `cur_tf`. Each pop shortens the queue, so `len + 1` rounds suffice.
pub schedule : ℕ → TfPtr → Cmd TfPtr
schedule self tf = do
  k ← get
  let c = k.cpus self
  assert (same_tf tf c.cur_tf)
  cur ← the_tid c.current_tid
  leave c.hartid cur (same c.current_tid c.idle_tid)
  k' ← get
  found ← next_loop (suc (k'.runqueues c.hartid).len) c.hartid
  next ← the_tid (if is_some found then found else c.idle_tid)
  modify (switch_to self c.current_tid next)
  pure (frame_of next)

pub thread_block : ℕ → TfPtr → Cmd (Unit {0})
thread_block self tf = do
  k ← get
  cur ← the_tid (k.cpus self).current_tid
  edit cur λ t. record t { state = blocked }
  _ ← schedule self tf
  pure tt

pub thread_wake : ℕ → Tid → Cmd (Unit {0})
thread_wake self none k = done tt k
thread_wake self (some tid) k =
    if leb thread_max tid
    then done tt k
    else if in_state (k.threads tid).state blocked
    then thread_make_runnable self (some tid) (cpu_current_hartid self k) k
    else done tt k

-- The body of the loop of `threads_tick` at the slot `i`.
tick_slot : ℕ → ℕ → Cmd (Unit {0})
tick_slot self i k =
    if in_state (k.threads i).state sleeping && leb (k.threads i).wakeup_tick k.ticks
    then thread_make_runnable self (some i) k.boot_hartid
        (set_thread i (record (k.threads i) { wakeup_tick = 0 }) k)
    else done tt k

tick_loop : ℕ → ℕ → ℕ → Cmd (Unit {0})
unfolding tick_slot
tick_loop self zero i k = done tt k
tick_loop self (suc n) i k =
    let rest = tick_loop self n (suc i) in and_then (tick_slot self i k) λ _. rest

pub threads_tick : ℕ → Cmd (Unit {0})
unfolding tick_loop
threads_tick self k = tick_loop self thread_max 0 (record k { ticks = (k.ticks + 1) % 2 ^ 64 })
