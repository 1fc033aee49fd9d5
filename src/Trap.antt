-- ===== src/Trap.antt =====
-- kernel/trap.c: from a trap to its handler. What a trap meets outside the kernel (`Outside`) is an
-- argument: the clock, the interrupts pending, and the texts in user memory. The entry's lock makes
-- the whole of it one step; messages for the log are left out.
pub mod Calls
pub mod Sound
use ccos.Common.{
  ℕ, ◌+◌, ◌-◌, Bool, true, false, not, ◌&&◌, Option, none, some, List, ltb, leb, ◌==◌,
  if◌then◌else◌, is_some, ℤ, length, ◌/◌, ◌%◌, ◌^◌,
}
use ccos.Kernel.{Tid, Trapframe, TfPtr, bootstrap, Machine}
use ccos.Kernel.Run.{
  panicked, Cmd, pure, ◌>>=◌, ◌>>◌, get, when, edit_cpu, read_tf, edit_tf, return_a0,
}
use ccos.Cpu.{cpu_current_hartid}
use ccos.Console.{Ring}
use ccos.Platform.{IrqTable, Claim, platform_handle_s_external, sys_irq_get_stats}
use ccos.Sysfile.{ReadResult, sys_read, sys_write, sys_clock_gettime}
use ccos.Thread.Syscalls.{
  minus, thread_sys_sleep, thread_sys_yield, thread_sys_create, thread_sys_exit, thread_sys_join,
  thread_sys_detach,
}
use ccos.Thread.Kill.{thread_sys_kill}
use ccos.Thread.Info.{thread_sys_list, sys_runqueue_snapshot}
use ccos.Thread.Irq.{sched_on_timer_irq, sched_on_ipi_irq}

-- `g_illegal_probe_enabled` and the other state of the probes at start-up.
pub record Probes : Type 0 where
  pub illegal_enabled : Bool
  pub illegal_hit : Bool
  pub wfi_enabled : Bool
  pub wfi_fired : Bool
  pub wfi_pc : ℕ

pub trap_illegal_probe_enable : Probes → Probes
trap_illegal_probe_enable p = record p { illegal_enabled = true }

pub trap_illegal_probe_disable : Probes → Probes
trap_illegal_probe_disable p = record p { illegal_enabled = false }

pub trap_illegal_probe_clear : Probes → Probes
trap_illegal_probe_clear p = record p { illegal_hit = false }

pub trap_illegal_probe_hit : Probes → Bool
trap_illegal_probe_hit p = p.illegal_hit

pub trap_wfi_probe_enable : Probes → Probes
trap_wfi_probe_enable p = record p { wfi_enabled = true; wfi_fired = false }

pub trap_wfi_probe_disable : Probes → Probes
trap_wfi_probe_disable p = record p { wfi_enabled = false }

pub trap_wfi_probe_fired : Probes → Bool
trap_wfi_probe_fired p = p.wfi_fired

pub trap_wfi_probe_set_pc : ℕ → Probes → Probes
trap_wfi_probe_set_pc pc p = record p { wfi_pc = pc }

pub trap_install_bootstrap_tf : ℕ → Cmd (Unit {0})
trap_install_bootstrap_tf self = edit_cpu self λ c. record c { cur_tf = bootstrap }

-- The state beside the threads that a trap may change.
pub record Devices : Type 0 where
  pub probes : Probes
  pub irqs : IrqTable
  pub ring : Ring

pub record Outside : Type 0 where
  pub machine : Machine
  pub boot_real_ns : ℕ
  pub now_ns : ℕ
  pub text_at : ℕ → Option (List ℕ)
  pub claims : List Claim

-- `(int)x` of a register.
abbrev pub to_int : ℕ → ℤ
to_int x =
    if ltb (x % 2 ^ 32) (2 ^ 31) then ℤ.pos (x % 2 ^ 32) else ℤ.negsuc (2 ^ 32 - 1 - x % 2 ^ 32)

-- `(tid_t)x`; all negative numbers are none.
abbrev pub to_tid : ℕ → Tid
to_tid x = if ltb (x % 2 ^ 32) (2 ^ 31) then some (x % 2 ^ 32) else none

-- `include/uapi/usyscall.h`
pub data Syscall : Type 0 where
  sys_sleep sys_thread_exit sys_thread_join sys_thread_create sys_write_call sys_read_call : Syscall
  sys_thread_list sys_thread_kill sys_clock sys_irq_stats sys_get_hartid sys_yield : Syscall
  sys_thread_detach sys_runqueues sys_unknown : Syscall

-- The call that a number in a0 asks for.
unfoldable pub syscall_of : ℕ → Syscall
syscall_of id =
    if id == 1
    then sys_sleep
    else if id == 2
    then sys_thread_exit
    else if id == 3
    then sys_thread_join
    else if id == 4
    then sys_thread_create
    else if id == 5
    then sys_write_call
    else if id == 6
    then sys_read_call
    else if id == 7
    then sys_thread_list
    else if id == 8
    then sys_thread_kill
    else if id == 9
    then sys_clock
    else if id == 10
    then sys_irq_stats
    else if id == 11
    then sys_get_hartid
    else if id == 12
    then sys_yield
    else if id == 13
    then sys_thread_detach
    else if id == 14
    then sys_runqueues
    else sys_unknown

-- A count as a result, -1 for none.
abbrev count_or_minus {ℓ} : {A : Type ℓ} → Option (List A) → ℕ
count_or_minus none = minus 1
count_or_minus (some xs) = length xs

-- A read that blocks leaves a0 to whoever wakes the thread.
finish_read : TfPtr → ReadResult → Cmd (Unit {0})
finish_read tf res = elim res.value [ none ↦ pure tt | some v ↦ return_a0 tf v ]

-- The switch of `syscall_handler`; `f` is the caller's frame. The ring of the console is handed on.
run_syscall : Outside → ℕ → TfPtr → Trapframe → IrqTable → Syscall → Ring → Cmd Ring
unfolding finish_read
run_syscall o self tf f t sys_sleep r = do thread_sys_sleep self tf f.a1; pure r
run_syscall o self tf f t sys_thread_exit r = do thread_sys_exit self tf (to_int f.a1); pure r
run_syscall o self tf f t sys_thread_join r = do thread_sys_join self tf (to_tid f.a1) f.a2; pure r
run_syscall o self tf f t sys_thread_create r = do
  thread_sys_create o.machine self tf f.a1 f.a2 (o.text_at f.a3)
  pure r
run_syscall o self tf f t sys_write_call r = do
  return_a0 tf (sys_write (f.a1 % 2 ^ 32) f.a3)
  pure r
run_syscall o self tf f t sys_read_call r = do
  res ← sys_read self (f.a1 % 2 ^ 32) f.a2 f.a3 tf r
  finish_read tf res
  pure res.ring
run_syscall o self tf f t sys_thread_list r = do
  k ← get
  return_a0 tf (count_or_minus (thread_sys_list f.a1 (to_tid f.a2) k))
  pure r
run_syscall o self tf f t sys_thread_kill r = do thread_sys_kill self tf (to_tid f.a1); pure r
run_syscall o self tf f t sys_clock r = do
  return_a0 tf (
      if is_some (sys_clock_gettime (f.a1 % 2 ^ 32) f.a2 o.boot_real_ns o.now_ns)
      then 0
      else minus 1)
  pure r
run_syscall o self tf f t sys_irq_stats r = do
  return_a0 tf (count_or_minus (sys_irq_get_stats f.a1 f.a2 t))
  pure r
run_syscall o self tf f t sys_get_hartid r = do
  k ← get
  return_a0 tf (cpu_current_hartid self k)
  pure r
run_syscall o self tf f t sys_yield r = do thread_sys_yield self tf; pure r
run_syscall o self tf f t sys_thread_detach r = do thread_sys_detach self tf (to_tid f.a1); pure r
run_syscall o self tf f t sys_runqueues r = do
  k ← get
  return_a0 tf (count_or_minus (sys_runqueue_snapshot f.a1 f.a2 k))
  pure r
run_syscall o self tf f t sys_unknown r = λ k. panicked

-- `tf->sepc += 4`
abbrev pub skip_instruction : TfPtr → Cmd (Unit {0})
skip_instruction tf = edit_tf tf λ f. record f { sepc = (f.sepc + 4) % 2 ^ 64 }

pub syscall_handler : Outside → ℕ → TfPtr → IrqTable → Ring → Cmd Ring
unfolding run_syscall
syscall_handler o self tf t r = do
  f ← read_tf tf
  skip_instruction tf
  run_syscall o self tf f t (syscall_of f.a0) r

-- SPP of a saved sstatus: the trap came from S mode.
abbrev pub from_kernel : Trapframe → Bool
from_kernel f = f.sstatus / 2 ^ 8 % 2 == 1

-- The debug build: a breakpoint of the kernel is stepped over, one of a user ends the thread.
pub breakpoint_handler : ℕ → TfPtr → Cmd (Unit {0})
breakpoint_handler self tf = do
  f ← read_tf tf
  skip_instruction tf
  when (not (from_kernel f)) (thread_sys_exit self tf (ℤ.negsuc 0))

-- `scause`, decoded: its highest bit says that it is an interrupt.
pub data Cause : Type 0 where
  irq_soft irq_timer irq_ext exc_env_call_u exc_breakpoint exc_illegal_instr unhandled : Cause

unfoldable pub cause_of : ℕ → Cause
cause_of scause =
    let code = scause % 2 ^ 63 in
    if leb (2 ^ 63) scause
    then (if code == 1
        then irq_soft
        else if code == 5
        then irq_timer
        else if code == 9
        then irq_ext
        else unhandled)
    else if code == 8
    then exc_env_call_u
    else if code == 3
    then exc_breakpoint
    else if code == 2
    then exc_illegal_instr
    else unhandled

-- A timer interrupt while a probe of `wfi` is under way.
wfi_probe : TfPtr → Trapframe → Probes → Cmd Probes
wfi_probe tf f p = do
  when (f.sepc == p.wfi_pc) (skip_instruction tf)
  pure (record p { wfi_fired = true })

-- The two switches of `trap_entry_c` up to `handled:`.
handle_cause : Outside → ℕ → TfPtr → Trapframe → Cause → Devices → Cmd Devices
unfolding wfi_probe
handle_cause o self tf f irq_soft d = do sched_on_ipi_irq self tf; pure d
handle_cause o self tf f irq_timer d =
    if d.probes.wfi_enabled
    then (do p ← wfi_probe tf f d.probes; pure (record d { probes = p }))
    else (do sched_on_timer_irq self tf; pure d)
handle_cause o self tf f irq_ext d = do
  a ← platform_handle_s_external self o.claims d.irqs d.ring
  pure (record d { irqs = a.0; ring = a.1 })
handle_cause o self tf f exc_env_call_u d = do
  r ← syscall_handler o self tf d.irqs d.ring
  pure (record d { ring = r })
handle_cause o self tf f exc_breakpoint d = do breakpoint_handler self tf; pure d
handle_cause o self tf f exc_illegal_instr d =
    if from_kernel f && d.probes.illegal_enabled
    then (do
      skip_instruction tf
      pure (record d { probes = record d.probes { illegal_hit = true } }))
    else if not (from_kernel f)
    then (do thread_sys_exit self tf (ℤ.negsuc 0); pure d)
    else λ k. panicked
handle_cause o self tf f unhandled d = λ k. panicked

-- The frame that the assembly restores next, with the devices.
pub trap_entry_c : Outside → ℕ → TfPtr → Devices → Cmd (TfPtr × Devices)
unfolding handle_cause
trap_entry_c o self tf d = do
  f ← read_tf tf
  d' ← handle_cause o self tf f (cause_of f.scause) d
  k ← get
  pure ((k.cpus self).cur_tf, d')
