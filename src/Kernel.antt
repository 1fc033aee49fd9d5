-- ===== src/Kernel.antt =====
-- The state that the kernel's files share: g_threads and g_runqueues, g_cpus, the tick counter,
-- the stdin waiter, and what the kernel has done to the outside (interprocessor interrupts and
-- `int` stores through user pointers). kernel/include/thread.h, cpu.h, trap.h, cpu_defs.h,
-- include/uapi/uthread.h, config/kernel_config.h.
pub mod Run
use ccos.Common.{ℕ, ◌==◌, if◌then◌else◌, Bool, true, false, Option, List, ℤ}

-- THREAD_MAX, which config/kernel_config.h sets in every build.
abbrev pub thread_max : ℕ
thread_max = 64

-- MAX_HARTS, at the default of cpu_defs.h.
abbrev pub max_harts : ℕ
max_harts = 4

-- FIRST_TID: the idle threads have the numbers below.
abbrev pub first_tid : ℕ
first_tid = max_harts

abbrev pub thread_stack_size : ℕ
thread_stack_size = 4096

-- KSTACK_SIZE
abbrev pub kstack_size : ℕ
kstack_size = 4096

-- SCHED_SLICE_TICKS
abbrev pub sched_slice_ticks : ℕ
sched_slice_ticks = 5

-- A `tid_t`, and a hart number in an `int32_t`: `none` is -1. The code never tells the negative
-- numbers apart, so `none` also stands for the others.
abbrev pub Tid : Type 0
Tid = Option ℕ

pub data ThreadState : Type 0 where
  unused runnable running sleeping waiting zombie blocked : ThreadState

-- The value of the enumerator.
abbrev pub state_number : ThreadState → ℕ
state_number unused = 0
state_number runnable = 1
state_number running = 2
state_number sleeping = 3
state_number waiting = 4
state_number zombie = 5
state_number blocked = 6

-- `t->state == s`
abbrev pub in_state : ThreadState → ThreadState → Bool
in_state a b = state_number a == state_number b

-- THREAD_EXITCODE_SIGKILL
abbrev pub exitcode_sigkill : ℤ
exitcode_sigkill = ℤ.negsuc 8

-- The registers that the C code reads or writes; `switch_regs` stands for those that only the
-- trap assembly saves and restores.
pub record Trapframe : Type 0 where
  pub ra : ℕ
  pub sp : ℕ
  pub s0 : ℕ
  pub a0 : ℕ
  pub a1 : ℕ
  pub a2 : ℕ
  pub a3 : ℕ
  pub sepc : ℕ
  pub sstatus : ℕ
  pub scause : ℕ
  pub stval : ℕ
  pub switch_regs : ℕ → ℕ

-- Every register cleared, as `memset` leaves it.
abbrev pub zero_tf : Trapframe
zero_tf = record {
  ra = 0;
  sp = 0;
  s0 = 0;
  a0 = 0;
  a1 = 0;
  a2 = 0;
  a3 = 0;
  sepc = 0;
  sstatus = 0;
  scause = 0;
  stval = 0;
  switch_regs = λ _. 0;
}

pub record Thread : Type 0 where
  pub id : ℕ
  pub state : ThreadState
  pub wakeup_tick : ℕ
  pub name : List ℕ
  pub is_user : Bool
  pub can_be_killed : Bool
  pub detached : Bool
  pub running_hart : Tid
  pub last_hart : Tid
  pub migrations : ℕ
  pub runs : ℕ
  pub rq_next : Tid
  pub on_rq : Bool
  pub tf : Trapframe
  pub stack_base : ℕ
  pub exit_code : ℤ
  pub join_waiter : Tid
  pub waiting_for : Tid
  pub join_status_ptr : ℕ
  pub pending_read_buf : ℕ
  pub pending_read_len : ℕ

pub record Runqueue : Type 0 where
  pub head : Tid
  pub tail : Tid
  pub len : ℕ

-- A `struct trapframe *`: null, the bootstrap frame of trap.c, or the frame of a thread.
pub data TfPtr : Type 0 where
  null bootstrap : TfPtr
  frame_of : ℕ → TfPtr

pub record Cpu : Type 0 where
  pub kstack_top : ℕ
  pub cur_tf : TfPtr
  pub hartid : ℕ
  pub online : Bool
  pub current_tid : Tid
  pub idle_tid : Tid
  pub timer_irqs : ℕ
  pub ctx_switches : ℕ
  pub need_resched : Bool
  pub slice_left : ℕ

pub record Kernel : Type 0 where
  pub threads : ℕ → Thread
  pub runqueues : ℕ → Runqueue
  pub cpus : ℕ → Cpu
  pub boot_hartid : ℕ
  pub smp_boot_done : Bool
  pub ticks : ℕ
  pub stdin_waiter : Tid
  pub bootstrap_tf : Trapframe
  -- The targets of the interrupts sent so far and the `int` stores to user memory, newest first.
  pub ipis : List ℕ
  pub stores : List (ℕ × ℤ)

-- `p == q` on pointers to trapframes.
abbrev pub same_tf : TfPtr → TfPtr → Bool
same_tf null null = true
same_tf bootstrap bootstrap = true
same_tf (frame_of a) (frame_of b) = a == b
same_tf _ _ = false

-- Where the linker puts the stacks and the code that the kernel takes the address of, and what a
-- read of sstatus gives.
pub record Machine : Type 0 where
  pub kstacks : ℕ
  pub thread_stacks : ℕ
  pub idle_main : ℕ
  pub sstatus : ℕ

-- An array with the entry `i` replaced.
abbrev pub update {ℓ} : {A : Type ℓ} → (ℕ → A) → ℕ → A → ℕ → A
update f i a j = if j == i then a else f j

-- `g_threads[i] = t`, `g_runqueues[h] = r`, `g_cpus[h] = c`
abbrev pub set_thread : ℕ → Thread → Kernel → Kernel
set_thread i t k = record k { threads = update k.threads i t }

abbrev pub set_runqueue : ℕ → Runqueue → Kernel → Kernel
set_runqueue h r k = record k { runqueues = update k.runqueues h r }

abbrev pub set_cpu : ℕ → Cpu → Kernel → Kernel
set_cpu h c k = record k { cpus = update k.cpus h c }
