-- ===== src/Thread/Info.antt =====
-- kernel/thread.c: `thread_sys_list`, `sys_runqueue_snapshot` and the introspection of threads.
use ccos.Common.{
  ℕ, zero, suc, Bool, not, ◌||◌, Option, none, some, List, [], ◌∷◌, leb, ◌==◌, if◌then◌else◌, codes,
  ℤ, length, take,
}
use ccos.Kernel.{thread_max, max_harts, Tid, unused, state_number, in_state, Thread, Kernel}
use ccos.Runqueue.{rq_snapshot}

pub record UThreadInfo : Type 0 where
  pub tid : ℕ
  pub state : ℕ
  pub is_user : Bool
  pub exit_code : ℤ
  pub name : List ℕ
  pub cpu : Tid
  pub last_hart : Tid
  pub migrations : ℕ
  pub runs : ℕ

-- `sizeof(dst->name) - 1`, the bytes of a name in front of its terminator.
abbrev pub name_max : ℕ
name_max = 31

-- One entry of the list. The name is cut to 31 bytes and terminated.
pub info_of : Thread → UThreadInfo
info_of t = record {
  tid = t.id;
  state = state_number t.state;
  is_user = t.is_user;
  exit_code = t.exit_code;
  name = take name_max t.name;
  cpu = t.running_hart;
  last_hart = t.last_hart;
  migrations = t.migrations;
  runs = t.runs;
}

-- The entries written from slot `i` on, with `n` slots and `room` entries left.
list_loop : ℕ → ℕ → ℕ → Kernel → List UThreadInfo
unfolding info_of
list_loop zero i room k = []
list_loop (suc n) i zero k = []
list_loop (suc n) i (suc room) k =
    let taken = info_of (k.threads i) ∷ list_loop n (suc i) room k in
    let skipped = list_loop n (suc i) (suc room) k in
    if in_state (k.threads i).state unused then skipped else taken

-- What is written to the user's buffer; its length is the result and `none` is the result -1. `max`
-- is `none` if it is negative.
pub thread_sys_list : ℕ → Option ℕ → Kernel → Option (List UThreadInfo)
unfolding list_loop
thread_sys_list ubuf none k = none
thread_sys_list ubuf (some max) k =
    if ubuf == 0 || max == 0 then none else some (list_loop thread_max 0 max k)

pub record RqState : Type 0 where
  pub hart : ℕ
  pub len : ℕ
  pub tids : List ℕ

-- A snapshot that fails counts as empty. `tids` are the entries in front of the -1s that fill up
-- the array.
rq_state_of : ℕ → Kernel → RqState
rq_state_of h k =
    let tids : List ℕ = elim (rq_snapshot h thread_max k) [ none ↦ [] | some ts ↦ ts ] in
    record { hart = h; len = length tids; tids = tids }

snapshot_loop : ℕ → ℕ → ℕ → Kernel → List RqState
unfolding rq_state_of
snapshot_loop zero h room k = []
snapshot_loop (suc n) h zero k = []
snapshot_loop (suc n) h (suc room) k =
    let taken = rq_state_of h k ∷ snapshot_loop n (suc h) room k in
    let skipped = snapshot_loop n (suc h) (suc room) k in
    if not (k.cpus h).online then skipped else taken

pub sys_runqueue_snapshot : ℕ → ℕ → Kernel → Option (List RqState)
unfolding snapshot_loop
sys_runqueue_snapshot ubuf n k =
    if ubuf == 0 || n == 0 then none else some (snapshot_loop max_harts 0 n k)

pub thread_current : ℕ → Kernel → Tid
thread_current self k = (k.cpus self).current_tid

pub thread_name : Tid → Kernel → List ℕ
thread_name none k = codes "?"
thread_name (some tid) k = if leb thread_max tid then codes "?" else (k.threads tid).name
