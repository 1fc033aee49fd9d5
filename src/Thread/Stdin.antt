-- ===== src/Thread/Stdin.antt =====
-- kernel/thread.c: the blocking read of standard input. `read` is the console's reader, of
-- kernel/console.c, with the console's state `S`; what it stores in user memory is not modelled.
pub mod Sound
use ccos.Common.{ℕ, ◌||◌, some, ◌==◌, if◌then◌else◌, ℤ}
use ccos.Kernel.{TfPtr}
use ccos.Kernel.Run.{Cmd, pure, ◌>>=◌, ◌>>◌, get, modify, edit, the_tid}
use ccos.Thread.Switch.{thread_block, thread_wake}

pub thread_wait_for_stdin : ℕ → ℕ → ℕ → TfPtr → Cmd (Unit {0})
thread_wait_for_stdin self buf len tf = do
  k ← get
  cur ← the_tid (k.cpus self).current_tid
  edit cur λ t. record t { pending_read_buf = buf; pending_read_len = len }
  modify λ k'. record k' { stdin_waiter = some (k'.threads cur).id }
  thread_block self tf

-- What is done with the number that the reader returned.
deliver_read : ℕ → ℕ → ℤ → Cmd (Unit {0})
deliver_read self waiter (ℤ.negsuc n) = pure tt
deliver_read self waiter (ℤ.pos n) = if n == 0 then pure tt else (do
  edit waiter
      λ t. record t { tf = record t.tf { a0 = n }; pending_read_buf = 0; pending_read_len = 0 }
  k ← get
  thread_wake self k.stdin_waiter)

-- The read of the thread `waiter`, behind the load of `g_stdin_waiter`.
read_for : {S : Type 0} → ℕ → (ℕ → ℕ → S → ℤ × S) → S → ℕ → Cmd S
read_for self read s waiter k =
    let t = k.threads waiter in
    if t.pending_read_buf == 0 || t.pending_read_len == 0
    then (do thread_wake self k.stdin_waiter; pure s) k
    else let (n, s') = read t.pending_read_buf t.pending_read_len s in
      (do deliver_read self waiter n; pure s') k

pub thread_read_from_stdin : {S : Type 0} → ℕ → (ℕ → ℕ → S → ℤ × S) → S → Cmd S
unfolding deliver_read read_for
thread_read_from_stdin self read s = do
  k ← get
  waiter ← the_tid k.stdin_waiter
  read_for self read s waiter
