-- ===== src/Thread/Init.antt =====
-- kernel/thread.c: `threads_init`; kernel/cpu.c: `cpu_enter_idle`; kernel/main.c: the order in which they
-- run. Every hart that is started is taken to come online, and one after the other, as the boot hart waits
-- for each; what the start-up prints, and what it does to devices, is left out.
pub mod Table
pub mod Sound
pub mod Idle
pub mod Boot
use ccos.Common.{
  ℕ, zero, suc, ◌+◌, false, none, some, List, [], ◌∷◌, ◌++◌, ltb, ◌==◌, if◌then◌else◌, same, codes,
  ℤ,
}
use ccos.Kernel.{
  thread_max, max_harts, first_tid, unused, runnable, running, zero_tf, Thread, frame_of, Kernel,
  Machine, set_thread,
}
use ccos.Cpu.{cpu_init_this_hart, set_smp_boot_done}
use ccos.Kernel.Run.{Cmd, done, and_then, ◌>>=◌, ◌>>◌, get, modify, assert, edit, edit_cpu}
use ccos.Runqueue.{rq_init_all}
use ccos.Thread.{thread_mark_running, init_thread_context_s, stack_of, thread_create_user}
use ccos.Common.{◌%◌, ◌/◌}

-- The digits of `x`, in front of those that are there. Ten rounds are the size of `tmp`.
digits_loop : ℕ → ℕ → List ℕ → List ℕ
digits_loop zero x ds = ds
digits_loop (suc n) x ds =
    let ds' = (b'0' + x % 10) ∷ ds in
    let rest = digits_loop n (x / 10) ds' in if x / 10 == 0 then ds' else rest

pub idle_name_for_hart : ℕ → List ℕ
unfolding digits_loop
idle_name_for_hart hartid = codes "idle" ++ digits_loop 10 hartid []

-- The first loop of `threads_init`; `is_user` keeps the 0 that .bss starts with.
pub blank : ℕ → Thread → Thread
blank i t = record t {
  id = i;
  state = unused;
  wakeup_tick = 0;
  name = codes "unused";
  stack_base = 0;
  can_be_killed = false;
  detached = false;
  exit_code = ℤ.pos 0;
  join_waiter = none;
  waiting_for = none;
  join_status_ptr = 0;
  pending_read_buf = 0;
  pending_read_len = 0;
  running_hart = none;
  last_hart = none;
  migrations = 0;
  runs = 0;
  rq_next = none;
  on_rq = false;
  tf = zero_tf;
}

blank_loop : ℕ → ℕ → Kernel → Kernel
unfolding blank
blank_loop zero i k = k
blank_loop (suc n) i k = blank_loop n (suc i) (set_thread i (blank i (k.threads i)) k)

pub idle_thread : Machine → ℕ → Thread → Thread
idle_thread m hid t =
    init_thread_context_s m
      (record t {
        state = runnable;
        name = idle_name_for_hart hid;
        stack_base = stack_of m hid;
        is_user = false;
        can_be_killed = false;
      })
      m.idle_main hid

idle_loop : Machine → ℕ → ℕ → Kernel → Kernel
unfolding idle_thread
idle_loop m zero hid k = k
idle_loop m (suc n) hid k =
    idle_loop m n (suc hid) (set_thread hid (idle_thread m hid (k.threads hid)) k)

-- The table before `user_main` is created: every slot free but those of the idle threads.
pub idle_table : Machine → Kernel → Kernel
unfolding blank_loop idle_loop
idle_table m k =
    idle_loop m max_harts 0 (rq_init_all (blank_loop thread_max 0 (record k { ticks = 0 })))

unfoldable pub threads_init : Machine → ℕ → ℕ → Cmd (Unit {0})
unfolding idle_table
threads_init m self user_main = do
  modify (idle_table m)
  tid ← thread_create_user m self user_main 0 (some (codes "user_main"))
  assert (same tid (some first_tid))

-- The loop of `start_other_harts` with the rounds that are left: a hart other than the boot hart is started,
-- and in `kernel_main` sets itself up.
start_loop : Machine → (boot rounds h : ℕ) → Cmd (Unit {0})
start_loop m boot zero h k = done tt k
start_loop m boot (suc n) h k =
    let rest = start_loop m boot n (suc h) in
    if h == boot then rest k else and_then (cpu_init_this_hart m h k) λ _. rest

unfoldable pub start_other_harts : Machine → (boot : ℕ) → Cmd (Unit {0})
unfolding start_loop
start_other_harts m boot = start_loop m boot max_harts 0

-- `primary_main` until the boot hart enters its idle thread.
unfoldable pub primary_main : Machine → (self user_main : ℕ) → Cmd (Unit {0})
primary_main m self user_main = do
  threads_init m self user_main
  modify set_smp_boot_done
  start_other_harts m self

-- `kernel_main` on the hart that is the first to set `g_boot_hartid`.
unfoldable pub kernel_main : Machine → (self user_main : ℕ) → Cmd (Unit {0})
kernel_main m self user_main = do
  cpu_init_this_hart m self
  modify λ k. record k { boot_hartid = self }
  primary_main m self user_main

-- The state in which `arch_first_switch` enters the idle thread of the hart.
pub cpu_enter_idle : ℕ → Cmd (Unit {0})
cpu_enter_idle hartid = do
  assert (ltb hartid max_harts)
  k ← get
  assert ((k.cpus hartid).hartid == hartid)
  edit_cpu hartid
      λ c. record c { idle_tid = some hartid; current_tid = some hartid; cur_tf = frame_of hartid }
  edit hartid λ t. thread_mark_running hartid (record t { state = running })
