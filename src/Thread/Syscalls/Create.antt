-- ===== src/Thread/Syscalls/Create.antt =====
-- `thread_sys_create` of kernel/thread.c keeps the kernel sound.
use ccos.Common.{ℕ, ◌<◌, ◌≡◌, refl, Option, List, arith}
use ccos.Kernel.{max_harts, frame_of, Kernel, Machine}
use ccos.Kernel.Run.{done}
use ccos.Thread.{alloc_thread_slot}
use ccos.Thread.Create.{thread_create_user-IsSound}
use ccos.Thread.Syscalls.{reg_of_tid, thread_sys_create}
use ccos.Thread.Invariant.{IsSound}
use ccos.Thread.Wake.{set_thread-Inv}

-- The system call answers the new thread's number, or -1, in the caller's a0; it does not panic,
-- and it keeps the kernel sound.
pub thread_sys_create-IsSound :
    (m : Machine) (self : ℕ)
    → self < max_harts
    → (cur entry arg : ℕ) (name : Option (List ℕ)) {k : Kernel} → IsSound k
    → (k' : Kernel) × (thread_sys_create m self (frame_of cur) entry arg name k ≡ done tt k')
      × IsSound k'
      × ((k'.threads cur).tf.a0 ≡ reg_of_tid (alloc_thread_slot k))
unfolding thread_sys_create
thread_sys_create-IsSound m self lt cur entry arg name {k} sound =
    let (k1, run, (q, own, v)) = thread_create_user-IsSound m self lt entry arg name sound in
    (
      _,
      rw run refl,
      (
        q,
        own,
        set_thread-Inv cur
            (record (k1.threads cur) {
              tf = record (k1.threads cur).tf { a0 = reg_of_tid (alloc_thread_slot k) };
            })
            v (record { state = refl; on_rq = refl; running_hart = refl; rq_next = refl }),
      ),
      ground arith,
    )
