-- ===== src/Sched.antt =====
-- kernel/sched.c: the choice of the hart that a thread is queued on. The two interrupt entries of
-- the file are in Thread/Irq.antt, behind `schedule`.
pub mod Pick
use ccos.Common.{ℕ, zero, suc, Bool, true, not, ◌||◌, ltb, if◌then◌else◌}
use ccos.Kernel.{max_harts, Kernel}
use ccos.Runqueue.{rq_len}

pub record Best : Type 0 where
  pub hart : ℕ
  pub len : ℕ
  pub online : Bool

-- The body of the loop at hart `h`.
pub consider : Kernel → ℕ → Best → Best
consider k h best =
    if not (k.cpus h).online
    then best
    else if not best.online || ltb (rq_len h k) best.len
    then record { hart = h; len = rq_len h k; online = true }
    else best

pick_loop : Kernel → ℕ → ℕ → Best → Best
unfolding consider
pick_loop k zero h best = best
pick_loop k (suc n) h best = pick_loop k n (suc h) (consider k h best)

-- The thread itself plays no part in the choice.
pub sched_pick_target_hart : ℕ → Kernel → ℕ
unfolding pick_loop
sched_pick_target_hart waker k =
    (pick_loop k max_harts 0
      (record { hart = waker; len = rq_len waker k; online = (k.cpus waker).online })).hart
