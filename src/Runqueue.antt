-- ===== src/Runqueue.antt =====
-- kernel/runqueue.c: a FIFO queue of threads for each hart, a list that runs through `rq_next`.
-- The walks take fuel: `rq_remove` is given `len + 1` rounds, `rq_snapshot` is bounded by `max`.
pub mod Links
pub mod Push
pub mod Pop
pub mod Remove
pub mod RemoveAny
pub mod Snapshot
use ccos.Common.{
  ℕ, zero, suc, ◌+◌, ◌-◌, Bool, true, false, Option, none, some, List, [], ◌∷◌, ltb, leb, ◌==◌,
  same, if◌then◌else◌,
}
use ccos.Kernel.{Kernel, Runqueue, Tid, thread_max, max_harts, set_thread, set_runqueue}
use ccos.Kernel.Run.{Cmd, done, panicked, out_of_fuel, and_then}

abbrev empty_rq : Runqueue
empty_rq = record { head = none; tail = none; len = 0 }

pub rq_init : ℕ → Kernel → Kernel
rq_init hartid k = if leb max_harts hartid then k else set_runqueue hartid empty_rq k

-- The rounds of the `for` loop that are left; `h` is its counter.
init_loop : ℕ → ℕ → Kernel → Kernel
init_loop zero h k = k
init_loop (suc n) h k = init_loop n (suc h) (rq_init h k)

pub rq_init_all : Kernel → Kernel
unfolding init_loop rq_init
rq_init_all = init_loop max_harts 0

-- `t->rq_next = next`
abbrev set_next : ℕ → Tid → Kernel → Kernel
set_next tid next k = set_thread tid (record (k.threads tid) { rq_next = next }) k

-- The writes of `rq_push_tail` behind its checks.
unfoldable pub link_tail : ℕ → ℕ → Kernel → Kernel
link_tail hartid tid k = mark (elim r.tail [
  | none ↦ set_runqueue hartid (record { head = some tid; tail = some tid; len = r.len + 1 }) clear
  | some last ↦
      set_runqueue hartid (record r { tail = some tid; len = r.len + 1 })
        (set_next last (some tid) clear)
])
  where
    r : Runqueue
    r = k.runqueues hartid

    clear : Kernel
    clear = set_next tid none k

    mark : Kernel → Kernel
    mark k' = set_thread tid (record (k'.threads tid) { on_rq = true }) k'

pub rq_push_tail : ℕ → Tid → Cmd (Unit {0})
rq_push_tail hartid none k = done tt k
rq_push_tail hartid (some tid) k =
    if leb max_harts hartid
    then done tt k
    else if leb thread_max tid
    then done tt k
    else if ltb tid max_harts
    then done tt k
    else if (k.threads tid).on_rq
    then panicked
    else done tt (link_tail hartid tid k)

-- The writes that take `tid`, whose successor is `next`, off the queue: those to the thread.
abbrev unlink : ℕ → Kernel → Kernel
unlink tid k = set_thread tid (record (k.threads tid) { rq_next = none; on_rq = false }) k

-- `if (r->len > 0) r->len--` stops at 0, as `-` does.
unfoldable pub pop_from : ℕ → ℕ → Kernel → Kernel
pop_from hartid tid k = unlink tid (
    set_runqueue hartid
      (record {
        head = (k.threads tid).rq_next;
        tail = elim (k.threads tid).rq_next [ none ↦ none | some _ ↦ (k.runqueues hartid).tail ];
        len = (k.runqueues hartid).len - 1;
      })
      k)

pub rq_pop_head : ℕ → Cmd Tid
rq_pop_head hartid k =
    if leb max_harts hartid then done none k else elim (k.runqueues hartid).head [
      | none ↦ done none k
      | some tid ↦ done (some tid) (pop_from hartid tid k)
    ]

pub rq_len : ℕ → Kernel → ℕ
rq_len hartid k = if leb max_harts hartid then 0 else (k.runqueues hartid).len

-- The body of the loop of `rq_remove` where `cur == tid`.
unfoldable pub cut : ℕ → Tid → ℕ → Kernel → Kernel
cut hartid prev cur k = unlink cur (bypass prev)
  where
    r : Runqueue
    r = k.runqueues hartid

    next : Tid
    next = (k.threads cur).rq_next

    new_tail : Tid
    new_tail = if same r.tail (some cur) then prev else r.tail

    bypass : Tid → Kernel
    bypass none = set_runqueue hartid (record { head = next; tail = new_tail; len = r.len - 1 }) k
    bypass (some p) =
        set_runqueue hartid (record r { tail = new_tail; len = r.len - 1 }) (set_next p next k)

-- `true` is the return value 0 and `false` is -1.
remove_loop : ℕ → ℕ → ℕ → (prev cur : Tid) → Cmd Bool
remove_loop zero hartid tid prev cur k = out_of_fuel
remove_loop (suc f) hartid tid prev none k = done false k
remove_loop (suc f) hartid tid prev (some cur) k =
    let rest = remove_loop f hartid tid (some cur) (k.threads cur).rq_next k in
    if cur == tid then done true (cut hartid prev cur k) else rest

pub rq_remove : ℕ → Tid → Cmd Bool
unfolding remove_loop
rq_remove hartid none k = done false k
rq_remove hartid (some tid) k =
    if leb max_harts hartid
    then done false k
    else if leb thread_max tid
    then done false k
    else remove_loop (suc (k.runqueues hartid).len) hartid tid none (k.runqueues hartid).head k

any_loop : ℕ → ℕ → ℕ → Cmd Tid
any_loop zero h tid k = done none k
any_loop (suc n) h tid k =
    let rest = any_loop n (suc h) tid in
    and_then (rq_remove h (some tid) k) λ found. if found then done (some h) else rest

-- The result is the hart whose queue held the thread, or -1.
pub rq_remove_any : Tid → Cmd Tid
unfolding any_loop
rq_remove_any none k = done none k
rq_remove_any (some tid) k = if leb thread_max tid then done none k else any_loop max_harts 0 tid k

-- What the loop of `rq_snapshot` writes from `dst[n]` on, with `max - n` rounds left.
walk : ℕ → Tid → Kernel → List ℕ
walk zero cur k = []
walk (suc n) none k = []
walk (suc n) (some cur) k = cur ∷ walk n (k.threads cur).rq_next k

-- The numbers written to `dst`, whose length is the result; `none` is the result -1. A sentinel
-- -1 follows them if there is room. `dst` is not null.
pub rq_snapshot : ℕ → ℕ → Kernel → Option (List ℕ)
unfolding walk
rq_snapshot hartid max k =
    if leb max_harts hartid
    then none
    else if max == 0
    then none
    else some (walk max (k.runqueues hartid).head k)
