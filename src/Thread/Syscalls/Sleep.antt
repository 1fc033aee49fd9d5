-- ===== src/Thread/Syscalls/Sleep.antt =====
-- `thread_sys_sleep` and `thread_sys_yield` of kernel/thread.c keep the kernel sound.
use ccos.Common.{
  ℕ, ◌+◌, ◌≤◌, ◌<◌, ◌≡◌, refl, inl, inr, Bool-cases, false, none, some, List, [], ◌∷◌, ◌++◌, arith,
  ◌==◌, ◌%◌, ◌^◌,
}
use ccos.Kernel.{max_harts, Tid, running, sleeping, frame_of, Kernel, update, set_thread}
use ccos.Kernel.Run.{done}
use ccos.Thread.Syscalls.{reschedule, thread_sys_sleep, thread_sys_yield}
use ccos.Thread.Invariant.{Inv, IsSound, Leaving, Inv-Leaving}
use ccos.Thread.Frame.{stopped-Leaving}
use ccos.Thread.Switch.Schedule.{first_or, rest_of, queue_after, schedule-Inv}

module _ (self cur : ℕ) (lt : self < max_harts) {k : Kernel} {q : ℕ → List ℕ} {own : ℕ → Tid}
    (v : Leaving self cur k q own) where
  -- `schedule` called for its effect.
  pub reschedule-Inv :
      let xs = queue_after k self cur (q self) in
      (k' : Kernel) × (own' : ℕ → Tid) × (reschedule self (frame_of cur) k ≡ done tt k')
      × ((k'.cpus self).current_tid ≡ some (first_or self xs))
      × Inv k' (update q self (rest_of xs)) own'
  reschedule-Inv =
      let (k', own', run, now, inv) = schedule-Inv self cur lt v in (k', own', rw run, now, inv)

module _ (self cur : ℕ) (lt : self < max_harts) {k : Kernel} {q : ℕ → List ℕ} {own : ℕ → Tid}
    (v : Inv k q own) (now : (k.cpus self).current_tid ≡ some cur) where
  sleeping_of : ℕ → Kernel
  sleeping_of ticks =
      set_thread cur
        (record (k.threads cur) {
          state = sleeping;
          wakeup_tick = (k.ticks + ticks) % 2 ^ 64;
          on_rq = false;
          rq_next = none;
        })
        k

  sleeping_of-Leaving : (ticks : ℕ) → Leaving self cur (sleeping_of ticks) q own
  unfolding sleeping_of
  sleeping_of-Leaving ticks =
      stopped-Leaving self cur k (sleeping_of ticks) q own v lt now (λ a ne. ground arith) refl refl
        (ground arith) (inl (ground arith)) (λ e. ground arith)

  -- A sleep of at least one tick leaves the caller off every queue: the hart runs the head of its
  -- queue, or its idle thread.
  pub thread_sys_sleep-Inv :
      (ticks : ℕ)
      → 0 < ticks
      → (k' : Kernel) × (own' : ℕ → Tid) × (thread_sys_sleep self (frame_of cur) ticks k
          ≡ done tt k')
        × ((k'.cpus self).current_tid ≡ some (first_or self (q self)))
        × Inv k' (update q self (rest_of (q self))) own'
  unfolding thread_sys_sleep sleeping_of
  thread_sys_sleep-Inv ticks positive =
      let (k', own', run, next, inv) = reschedule-Inv self cur lt (sleeping_of-Leaving ticks) in
      let stays : queue_after (sleeping_of ticks) self cur (q self) ≡ q self = ground arith in
      let test : (ticks == 0) ≡ false = ground arith in
      (k', own', rw (now, test) run, rw stays at next, rw stays at inv)

  -- A yield puts a caller that is not idle at the end of its hart's queue, and the hart runs the
  -- head of that queue: threads take turns.
  pub thread_sys_yield-Inv :
      max_harts ≤ cur
      → (k.threads cur).state ≡ running
      → (k' : Kernel) × (own' : ℕ → Tid) × (thread_sys_yield self (frame_of cur) k ≡ done tt k')
        × ((k'.cpus self).current_tid ≡ some (first_or self (q self ++ cur ∷ [])))
        × Inv k' (update q self (rest_of (q self ++ cur ∷ []))) own'
  unfolding thread_sys_yield thread_sys_sleep
  thread_sys_yield-Inv real up =
      let (k', own', run, next, inv) = reschedule-Inv self cur lt (Inv-Leaving self cur v lt now) in
      let goes : queue_after k self cur (q self) ≡ q self ++ cur ∷ [] = ground arith in
      (k', own', rw now run, rw goes at next, rw goes at inv)

  -- A sleep of any length, 0 included, does not panic and keeps the kernel sound.
  pub thread_sys_sleep-IsSound :
      (ticks : ℕ)
      → (k' : Kernel) × (thread_sys_sleep self (frame_of cur) ticks k ≡ done tt k') × IsSound k'
  unfolding thread_sys_sleep
  thread_sys_sleep-IsSound ticks = elim (Bool-cases (ticks == 0)) [
    | inl e ↦
        let (k', own', run, next, inv) =
          reschedule-Inv self cur lt (Inv-Leaving self cur v lt now) in
        (k', rw (now, e) run, (_, own', inv))
    | inr e ↦
        let (k', own', run, next, inv) = thread_sys_sleep-Inv ticks (ground arith) in
        (k', run, (_, own', inv))
  ]

  -- The same of a yield.
  pub thread_sys_yield-IsSound :
      (k' : Kernel) × (thread_sys_yield self (frame_of cur) k ≡ done tt k') × IsSound k'
  unfolding thread_sys_yield
  thread_sys_yield-IsSound = thread_sys_sleep-IsSound 0
