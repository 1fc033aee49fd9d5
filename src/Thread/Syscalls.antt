-- ===== src/Thread/Syscalls.antt =====
-- kernel/thread.c: the system calls that sleep, create, exit, join and detach, and those that list
-- the threads and the run queues. `tf` is the caller's trapframe, in whose a0 the result goes.
pub mod Sleep
pub mod Create
pub mod Exit
pub mod Join
use ccos.Common.{
  ℕ, ◌+◌, ◌-◌, Bool, true, false, not, ◌&&◌, ◌||◌, Option, none, some, List, ◌∷◌, ltb, leb, ◌==◌,
  if◌then◌else◌, same, is_some, ℤ,
}
use ccos.Kernel.{
  thread_max, max_harts, Tid, unused, sleeping, waiting, zombie, in_state, Thread, TfPtr, Kernel,
  Machine, set_thread,
}
use ccos.Kernel.Run.{
  done, Cmd, pure, ◌>>=◌, ◌>>◌, get, modify, when, edit, the_tid, read_tf, return_a0,
}
use ccos.Cpu.{cpu_current_hartid}
use ccos.Thread.{thread_make_runnable, recycle_thread, thread_create_user}
use ccos.Thread.Switch.{schedule}
use ccos.Common.{◌%◌, ◌^◌}

-- -n in a register.
abbrev pub minus : ℕ → ℕ
minus n = 2 ^ 64 - n

-- `(uintptr_t)tid`
abbrev pub reg_of_tid : Tid → ℕ
reg_of_tid none = minus 1
reg_of_tid (some t) = t

-- `*(int *)p = v`, unless p is null.
abbrev pub store_int : ℕ → ℤ → Kernel → Kernel
store_int p v k = if p == 0 then k else record k { stores = (p, v) ∷ k.stores }

-- schedule() for its effect.
abbrev pub reschedule : ℕ → TfPtr → Cmd (Unit {0})
reschedule self tf = do _ ← schedule self tf; pure tt

pub thread_sys_sleep : ℕ → TfPtr → ℕ → Cmd (Unit {0})
thread_sys_sleep self tf ticks = do
  k ← get
  cur ← the_tid (k.cpus self).current_tid
  when (not (ticks == 0)) (
      edit cur λ t. record t {
        state = sleeping;
        wakeup_tick = (k.ticks + ticks) % 2 ^ 64;
        on_rq = false;
        rq_next = none;
      })
  reschedule self tf

pub thread_sys_yield : ℕ → TfPtr → Cmd (Unit {0})
thread_sys_yield self tf = thread_sys_sleep self tf 0

pub thread_sys_create : Machine → ℕ → TfPtr → ℕ → ℕ → Option (List ℕ) → Cmd (Unit {0})
thread_sys_create m self tf entry arg name = do
  tid ← thread_create_user m self entry arg name
  return_a0 tf (reg_of_tid tid)

-- What exit and kill do for the thread `joiner` that waits in join: the exit code is stored where it
-- asked for it, its join returns 0, and it becomes runnable.
pub release_joiner : ℕ → ℕ → ℤ → Cmd (Unit {0})
release_joiner self joiner code = do
  modify λ k. store_int (k.threads joiner).join_status_ptr code k
  edit joiner λ w. record w { tf = record w.tf { a0 = 0 }; waiting_for = none; join_status_ptr = 0 }
  k ← get
  thread_make_runnable self (some joiner) (cpu_current_hartid self k)

-- The joiner of a thread that exits is released and the thread recycled; with no joiner nothing
-- happens here.
pub finish_exit : ℕ → ℕ → Tid → ℤ → Cmd (Unit {0})
finish_exit self cur none code k = done tt k
finish_exit self cur (some joiner) code k =
    if ltb joiner thread_max
    then (do release_joiner self joiner code; modify (recycle_thread cur)) k
    else done tt k

pub thread_sys_exit : ℕ → TfPtr → ℤ → Cmd (Unit {0})
thread_sys_exit self tf code = do
  k ← get
  cur ← the_tid (k.cpus self).current_tid
  let joiner = (k.threads cur).join_waiter
  frame ← read_tf tf
  edit cur
      λ t. record t { tf = frame; exit_code = code; state = zombie; on_rq = false; rq_next = none }
  finish_exit self cur joiner code
  edit cur λ t. record t { join_waiter = none }
  reschedule self tf

-- `t->join_waiter >= 0 && t->join_waiter != cur_tid`
abbrev pub joined_by_other : Thread → ℕ → Bool
joined_by_other t cur = is_some t.join_waiter && not (same t.join_waiter (some cur))

-- The wait of a join: the caller becomes the target's joiner and switches away.
join_wait : ℕ → TfPtr → ℕ → ℕ → ℕ → Cmd (Unit {0})
join_wait self tf cur target status_ptr = do
  edit cur
      λ t. record t { state = waiting; waiting_for = some target; join_status_ptr = status_ptr }
  edit target λ t. record t { join_waiter = some cur }
  reschedule self tf

-- `thread_sys_join` behind the check of the target's range.
join_target : ℕ → TfPtr → ℕ → ℕ → ℕ → Cmd (Unit {0})
join_target self tf cur target status_ptr k =
    let t = k.threads target in
    if target == cur
    then return_a0 tf (minus 2) k
    else if in_state t.state unused
    then return_a0 tf (minus 3) k
    else if t.detached
    then return_a0 tf (minus 5) k
    else if in_state t.state zombie
    then (if joined_by_other t cur
        then return_a0 tf (minus 4) k
        else return_a0 tf 0 (recycle_thread target (store_int status_ptr t.exit_code k)))
    else if joined_by_other t cur
    then return_a0 tf (minus 4) k
    else join_wait self tf cur target status_ptr k

pub thread_sys_join : ℕ → TfPtr → Tid → ℕ → Cmd (Unit {0})
thread_sys_join self tf none status_ptr = do
  k ← get
  cur ← the_tid (k.cpus self).current_tid
  return_a0 tf (minus 1)
thread_sys_join self tf (some target) status_ptr = do
  k ← get
  cur ← the_tid (k.cpus self).current_tid
  if target == 0 || leb thread_max target
      then return_a0 tf (minus 1)
      else join_target self tf cur target status_ptr

pub thread_sys_detach : ℕ → TfPtr → Tid → Cmd (Unit {0})
thread_sys_detach self tf none k = return_a0 tf (minus 1) k
thread_sys_detach self tf (some target) k =
    let t = k.threads target in
    if target == 0 || leb thread_max target
    then return_a0 tf (minus 1) k
    else if in_state t.state unused
    then return_a0 tf (minus 3) k
    else if ltb target max_harts
    then return_a0 tf (minus 2) k
    else if is_some t.join_waiter
    then return_a0 tf (minus 4) k
    else if t.detached
    then return_a0 tf 0 k
    else return_a0 tf 0 (
        let k' = set_thread target (record t { detached = true }) k in
        if in_state t.state zombie then recycle_thread target k' else k')
