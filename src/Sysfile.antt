-- ===== src/Sysfile.antt =====
-- kernel/sysfile.c: reading, writing and the clock; kernel/console.c: the arrival of a character. Both
-- work on the ring of the console and on the threads.
pub mod Read
use ccos.Common.{ℕ, not, ◌||◌, Option, none, some, List, [], ◌==◌, if◌then◌else◌, ℤ, length}
use ccos.Kernel.{Tid, TfPtr}
use ccos.Kernel.Run.{done, Cmd, pure, ◌>>=◌, ◌>>◌, modify}
use ccos.Console.{Ring, store_char, console_read_nonblock}
use ccos.Thread.Stdin.{thread_wait_for_stdin, thread_read_from_stdin}
use ccos.Thread.Syscalls.{minus}
use ccos.Time.{Timespec, ktime_get_real_ts, ktime_get_monotonic_ts}

-- `console_read_nonblock` as the reader that the thread code is given.
abbrev reader : ℕ → ℕ → Ring → ℤ × Ring
reader buf len r = let (cs, left) = console_read_nonblock len r in (ℤ.pos (length cs), left)

-- What is done for the thread that waits for input, if there is one.
serve_waiter : ℕ → Tid → Ring → Cmd Ring
serve_waiter self none r k = done r k
serve_waiter self (some waiter) r k =
    (do
      left ← thread_read_from_stdin self reader r
      modify λ k'. record k' { stdin_waiter = none }
      pure left)
      k

pub console_on_char_from_irq : ℕ → ℕ → Ring → Cmd Ring
unfolding serve_waiter
console_on_char_from_irq self ch r k = serve_waiter self k.stdin_waiter (store_char ch r) k

-- What a read hands back at once, none if it blocks. The bytes read go to the caller's buffer.
pub record ReadResult : Type 0 where
  pub value : Option ℕ
  pub bytes : List ℕ
  pub ring : Ring

pub sys_read : ℕ → ℕ → ℕ → ℕ → TfPtr → Ring → Cmd ReadResult
sys_read self fd buf len tf r k =
    let (cs, left) = console_read_nonblock len r in
    if not (fd == 0)
    then done (record { value = some (minus 1); bytes = []; ring = r }) k
    else if not (length cs == 0)
    then done (record { value = some (length cs); bytes = cs; ring = left }) k
    else (do
      thread_wait_for_stdin self buf len tf
      pure (record { value = none; bytes = cs; ring = left }))
        k

-- The value returned; the bytes go to the UART.
pub sys_write : ℕ → ℕ → ℕ
sys_write fd len = if len == 0 then 0 else if fd == 1 || fd == 2 then len else minus 1

-- `copy_to_user_timespec`: what is stored, none for a null pointer.
copy_to_user_timespec : ℕ → Timespec → Option Timespec
copy_to_user_timespec u_ts ts = if u_ts == 0 then none else some ts

-- The time that is handed out: none is the result -1.
pub sys_clock_gettime : (clock_id u_ts boot_real_ns now : ℕ) → Option Timespec
unfolding copy_to_user_timespec
sys_clock_gettime clock_id u_ts boot_real_ns now =
    if clock_id == 0
    then copy_to_user_timespec u_ts (ktime_get_real_ts now)
    else if clock_id == 1
    then copy_to_user_timespec u_ts (ktime_get_monotonic_ts boot_real_ns now)
    else none
