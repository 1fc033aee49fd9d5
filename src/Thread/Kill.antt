-- ===== src/Thread/Kill.antt =====
-- kernel/thread.c: `thread_sys_kill`.
pub mod Slain
pub mod Sound
use ccos.Common.{ℕ, true, not, ◌&&◌, none, some, ltb, leb, ◌==◌, if◌then◌else◌}
use ccos.Kernel.{
  thread_max, max_harts, Tid, unused, zombie, in_state, exitcode_sigkill, TfPtr, Kernel, set_thread,
  set_cpu,
}
use ccos.Kernel.Run.{Cmd, pure, ◌>>=◌, ◌>>◌, get, modify, when, edit, the_tid, return_a0}
use ccos.Runqueue.{rq_remove_any}
use ccos.Cpu.{cpu_current_hartid, smp_kick_hart}
use ccos.Thread.{recycle_thread, at_rest}
use ccos.Thread.Syscalls.{minus, release_joiner}

-- A victim that runs on another hart makes that hart switch away.
pub kick_victim : ℕ → ℕ → Kernel → Kernel
kick_victim self victim k = elim (k.threads victim).running_hart [
  | none ↦ k
  | some rh ↦
      if leb max_harts rh
      then k
      else if rh == cpu_current_hartid self k
      then set_cpu self (record (k.cpus self) { need_resched = true }) k
      else smp_kick_hart rh k
]

-- The end of kill: the joiner is released as on exit, and the victim is recycled unless it still
-- runs. Without a joiner a detached victim is recycled likewise.
pub settle : ℕ → ℕ → Tid → Cmd (Unit {0})
settle self victim none = modify λ k.
    let k' = set_thread victim (record (k.threads victim) { join_waiter = none }) k in
    if (k'.threads victim).detached && at_rest (k'.threads victim)
    then recycle_thread victim k'
    else k'
settle self victim (some joiner) = when (ltb joiner thread_max) do
  k ← get
  release_joiner self joiner (k.threads victim).exit_code
  modify λ k'.
      if at_rest (k'.threads victim)
      then recycle_thread victim k'
      else set_thread victim (record (k'.threads victim) { join_waiter = some joiner }) k'

-- `thread_sys_kill` behind its checks.
pub slay : ℕ → ℕ → Cmd (Unit {0})
slay self victim = do
  k ← get
  let joiner = (k.threads victim).join_waiter
  edit victim λ t. record t { exit_code = exitcode_sigkill; state = zombie; wakeup_tick = 0 }
  k' ← get
  when (k'.threads victim).on_rq (do _ ← rq_remove_any (some victim); pure tt)
  modify (kick_victim self victim)
  settle self victim joiner

pub kill_target : ℕ → TfPtr → ℕ → ℕ → Cmd (Unit {0})
kill_target self tf cur target k =
    let t = k.threads target in
    if target == 0
    then return_a0 tf (minus 2) k
    else if target == cur
    then return_a0 tf (minus 4) k
    else if not t.can_be_killed
    then return_a0 tf (minus 3) k
    else if in_state t.state unused
    then return_a0 tf (minus 3) k
    else if in_state t.state zombie
    then return_a0 tf 0 k
    else (do slay self target; return_a0 tf 0) k

pub thread_sys_kill : ℕ → TfPtr → Tid → Cmd (Unit {0})
thread_sys_kill self tf none = do
  k ← get
  cur ← the_tid (k.cpus self).current_tid
  return_a0 tf (minus 1)
thread_sys_kill self tf (some target) = do
  k ← get
  cur ← the_tid (k.cpus self).current_tid
  if leb thread_max target then return_a0 tf (minus 1) else kill_target self tf cur target
