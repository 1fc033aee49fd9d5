-- ===== src/Thread/Syscalls/Join/Early.antt =====
-- `thread_sys_join` of kernel/thread.c with a target that is dead but that a hart still runs.
use ccos.Common.{ℕ, ◌<◌, ◌≡◌, refl, ◌≢◌, true, false, ◌||◌, none, some, arith, leb, ◌==◌}
use ccos.Kernel.{thread_max, max_harts, unused, zombie, in_state, frame_of, Kernel}
use ccos.Kernel.Run.{done, return_a0}
use ccos.Thread.{recycled, recycle_thread}
use ccos.Thread.Syscalls.{store_int, joined_by_other, thread_sys_join, join_target}
use ccos.Thread.Invariant.{IsSound}

-- The slot is free although hart `h` still runs the thread.
recycled-unsound :
    (k : Kernel) (h t : ℕ)
    → h < max_harts
    → 0 < t
    → t < thread_max
    → (k.cpus h).current_tid ≡ some t
    → (cur value : ℕ)
    → (k' : Kernel) × (return_a0 (frame_of cur) value (recycle_thread t k) ≡ done tt k')
      × ((k'.threads t).state ≡ unused)
      × ((k'.cpus h).current_tid ≡ some t)
      × ¬ IsSound k'
unfolding recycle_thread recycled
recycled-unsound k h t lt pos fits now cur value =
    let test : (t == 0 || leb thread_max t) ≡ false = ground arith in
    let k1 = recycle_thread t k in
    let gone : (k1.threads t).running_hart ≡ none = rw test (ground arith) in
    let cpus : (k1.cpus h).current_tid ≡ some t = rw test now in
    let free : (k1.threads t).state ≡ unused = rw test (ground arith) in
    (
      _,
      refl,
      ground (arith, free),
      cpus,
      λ (q, own, v). ground (arith, (v.current h t lt cpus).running_hart, gone),
    )

-- A join with a thread that was killed while another hart ran it, and that this hart has not left
-- yet, succeeds, and frees the slot under that hart: the kernel that it leaves is not sound.
pub thread_sys_join-unsound :
    (self cur h t p : ℕ) (k : Kernel)
    → (k.cpus self).current_tid ≡ some cur
    → h < max_harts
    → 0 < t
    → t < thread_max
    → t ≢ cur
    → (k.cpus h).current_tid ≡ some t
    → (k.threads t).state ≡ zombie
    → (k.threads t).detached ≡ false
    → (k.threads t).join_waiter ≡ none
    → (k' : Kernel) × (thread_sys_join self (frame_of cur) (some t) p k ≡ done tt k')
      × ((k'.threads t).state ≡ unused)
      × ((k'.cpus h).current_tid ≡ some t)
      × ¬ IsSound k'
unfolding thread_sys_join join_target
thread_sys_join-unsound self cur h t p k here lt pos fits apart now dead kept alone =
    let range : (t == 0 || leb thread_max t) ≡ false = ground arith in
    let other : (t == cur) ≡ false = ground arith in
    let used : in_state (k.threads t).state unused ≡ false = ground arith in
    let gone : in_state (k.threads t).state zombie ≡ true = ground arith in
    let free : joined_by_other (k.threads t) cur ≡ false = ground arith in
    rw (here, range, other, used, kept, gone, free)
      (recycled-unsound (store_int p (k.threads t).exit_code k) h t lt pos fits (ground arith) cur
        0)
