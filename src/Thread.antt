-- ===== src/Thread.antt =====
-- kernel/thread.c: the thread table. This file holds the helpers that every part of thread.c uses,
-- and the creation of threads; Thread/Switch.antt has `schedule`, the tick and the wake-up, and
-- Thread/Syscalls.antt, Thread/Kill.antt and Thread/Stdin.antt the system calls. `self` is the hart
-- that runs the code.
pub mod Switch
pub mod Syscalls
pub mod Kill
pub mod Info
pub mod Init
pub mod Invariant
pub mod Frame
pub mod Runnable
pub mod Wake
pub mod Recycle
pub mod Create
pub mod Irq
pub mod Stdin
pub mod Steps
use ccos.Common.{
  ℕ, zero, suc, ◌+◌, ◌-◌, true, false, not, ◌&&◌, ◌||◌, Option, none, some, List, ltb, leb, ◌==◌,
  if◌then◌else◌, same, is_some, codes, ℤ,
}
use ccos.Kernel.{
  thread_max, max_harts, thread_stack_size, Tid, unused, runnable, running, in_state, zero_tf,
  Thread, Kernel, Machine, set_thread,
}
use ccos.Kernel.Run.{done, Cmd, pure, ◌>>=◌, ◌>>◌, get, edit, edit_cpu}
use ccos.Runqueue.{rq_push_tail}
use ccos.Cpu.{cpu_current_hartid, smp_kick_hart}
use ccos.Sched.{sched_pick_target_hart}
use ccos.Common.{◌%◌, ◌^◌, ◌*◌, Bool}
use Prim.Native.Nat.{bit_and, bit_or}

-- `if (target == cpu_current_hartid()) …->need_resched = 1; else smp_kick_hart(target);`
unfoldable pub notify : ℕ → ℕ → Cmd (Unit {0})
notify self target k =
    if target == cpu_current_hartid self k
    then edit_cpu self (λ c. record c { need_resched = true }) k
    else done tt (smp_kick_hart target k)

-- The part of `thread_make_runnable` behind its checks.
unfoldable pub enqueue : ℕ → ℕ → ℕ → Cmd (Unit {0})
enqueue self tid target = do
  edit tid λ t. record t { state = runnable; wakeup_tick = 0 }
  rq_push_tail target (some tid)
  notify self target

pub thread_make_runnable : ℕ → Tid → ℕ → Cmd (Unit {0})
thread_make_runnable self none preferred k = done tt k
thread_make_runnable self (some tid) preferred k =
    if leb thread_max tid
    then done tt k
    else if ltb tid max_harts
    then done tt k
    else if (k.threads tid).on_rq || in_state (k.threads tid).state running
    then done tt k
    else enqueue self tid (sched_pick_target_hart preferred k) k

pub thread_mark_running : ℕ → Thread → Thread
thread_mark_running hartid t = record t {
  running_hart = some hartid;
  runs = (t.runs + 1) % 2 ^ 64;
  migrations =
      if is_some t.last_hart && not (same t.last_hart (some hartid))
      then (t.migrations + 1) % 2 ^ 32
      else t.migrations;
}

pub thread_mark_not_running : Thread → Thread
thread_mark_not_running t = record t {
  last_hart = if is_some t.running_hart then t.running_hart else t.last_hart;
  running_hart = none;
}

-- The rounds of the loop that are left; `i` is its counter.
alloc_loop : ℕ → ℕ → Kernel → Tid
alloc_loop zero i k = none
alloc_loop (suc n) i k =
    let rest = alloc_loop n (suc i) k in
    if in_state (k.threads i).state unused then some i else rest

pub alloc_thread_slot : Kernel → Tid
unfolding alloc_loop
alloc_thread_slot k = alloc_loop (thread_max - 1) 1 k

-- `s & ~(SSTATUS_SPP | SSTATUS_SIE)`
abbrev cleared_sstatus : Machine → ℕ
cleared_sstatus m = bit_and m.sstatus (2 ^ 64 - 1 - 0x102)

-- The stack pointer: the end of the stack, aligned down to 16 bytes.
abbrev stack_top : Thread → ℕ
stack_top t = t.stack_base + thread_stack_size - (t.stack_base + thread_stack_size) % 16

init_context : ℕ → Thread → ℕ → ℕ → Thread
init_context sstatus t entry arg = record t {
  tf = record zero_tf { sp = stack_top t; sepc = entry; a0 = arg; sstatus = sstatus };
}

-- SPP and SPIE are set: `sret` returns to S mode.
pub init_thread_context_s : Machine → Thread → ℕ → ℕ → Thread
unfolding init_context
init_thread_context_s m = init_context (bit_or (bit_or (cleared_sstatus m) 0x100) 0x20)

-- SPIE alone is set: `sret` returns to U mode.
pub init_thread_context_u : Machine → Thread → ℕ → ℕ → Thread
unfolding init_context
init_thread_context_u m = init_context (bit_or (cleared_sstatus m) 0x20)

-- The fields that `recycle_thread` resets.
unfoldable pub recycled : Thread → Thread
recycled t = record t {
  state = unused;
  wakeup_tick = 0;
  name = codes "unused";
  is_user = false;
  can_be_killed = false;
  detached = false;
  exit_code = ℤ.pos 0;
  join_waiter = none;
  waiting_for = none;
  join_status_ptr = 0;
  tf = zero_tf;
  running_hart = none;
  last_hart = none;
  migrations = 0;
  runs = 0;
  rq_next = none;
  on_rq = false;
}

pub recycle_thread : ℕ → Kernel → Kernel
unfolding recycled
recycle_thread tid k =
    if tid == 0 || leb thread_max tid
    then k
    else set_thread tid (recycled (k.threads tid)) (record k {
      stdin_waiter = if same k.stdin_waiter (some tid) then none else k.stdin_waiter;
    })

-- `t->running_hart < 0 && !t->on_rq`
abbrev pub at_rest : Thread → Bool
at_rest t = not (is_some t.running_hart) && not t.on_rq

-- `name ? name : default`
abbrev name_or : Option (List ℕ) → List ℕ → List ℕ
name_or none d = d
name_or (some s) d = s

-- The address of `g_thread_stacks[tid]`.
abbrev pub stack_of : Machine → ℕ → ℕ
stack_of m tid = m.thread_stacks + tid * thread_stack_size

fresh_kern : Machine → ℕ → Option (List ℕ) → Thread → Thread
fresh_kern m tid name t = record t {
  state = runnable;
  wakeup_tick = 0;
  name = name_or name (codes "thread");
  stack_base = stack_of m tid;
  exit_code = ℤ.pos 0;
  detached = false;
  join_waiter = none;
  waiting_for = none;
  join_status_ptr = 0;
  is_user = false;
}

fresh_user : Machine → ℕ → Option (List ℕ) → Thread → Thread
fresh_user m tid name t = record t {
  state = runnable;
  wakeup_tick = 0;
  name = name_or name (codes "uthread");
  stack_base = stack_of m tid;
  is_user = true;
  can_be_killed = true;
  detached = false;
}

-- The common end of both creations: the slot is filled and queued.
start_thread : ℕ → ℕ → (Thread → Thread) → Cmd Tid
start_thread self tid fill = do
  edit tid fill
  k ← get
  thread_make_runnable self (some tid) (cpu_current_hartid self k)
  pure (some tid)

-- An entry of 0 is a null function pointer.
pub thread_create_kern : Machine → ℕ → ℕ → ℕ → Option (List ℕ) → Cmd Tid
unfolding start_thread fresh_kern
thread_create_kern m self entry arg name k =
    if entry == 0 then done none k else elim (alloc_thread_slot k) [
      | none ↦ done none k
      | some tid ↦
          start_thread self tid (λ t. init_thread_context_s m (fresh_kern m tid name t) entry arg) k
    ]

pub thread_create_user : Machine → ℕ → ℕ → ℕ → Option (List ℕ) → Cmd Tid
unfolding start_thread fresh_user
thread_create_user m self entry arg name k = elim (alloc_thread_slot k) [
  | none ↦ done none k
  | some tid ↦
      start_thread self tid (λ t. init_thread_context_u m (fresh_user m tid name t) entry arg) k
]
