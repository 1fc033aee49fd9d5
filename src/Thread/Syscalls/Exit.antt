-- ===== src/Thread/Syscalls/Exit.antt =====
-- `thread_sys_exit` of kernel/thread.c keeps the kernel sound.
pub mod Revive
use ccos.Common.{
  ℕ, ◌≤◌, ◌<◌, ◌≡◌, refl, sym, ◌∙◌, ◌≢◌, inl, inr, true, false, none, some, List, arith, ltb, ℤ,
  Bool-cases, Option-cases,
}
use ccos.Kernel.{thread_max, max_harts, Tid, zombie, Thread, frame_of, Kernel, set_thread}
use ccos.Kernel.Run.{done}
use ccos.Thread.{recycled, recycle_thread}
use ccos.Thread.Switch.{has_joiner}
use ccos.Thread.Syscalls.{store_int, reschedule, release_joiner, finish_exit, thread_sys_exit}
use ccos.Thread.Invariant.{Inv, IsSound, IsAway, Leaving}
use ccos.Thread.Frame.{
  SameHart, SameHart-refl, Delivered, Delivered-trans, Inv-cpus, Inv-thread, stopped-Leaving,
}
use ccos.Thread.Wake.{thread_make_runnable-IsSound}
use ccos.Thread.Syscalls.Sleep.{reschedule-Inv}
use mathlib.Core.Path.{subst}

-- Waiting for a thread is over: the joiner's slot.
abbrev joined : Thread → Thread
joined w = record w { tf = record w.tf { a0 = 0 }; waiting_for = none; join_status_ptr = 0 }

-- Releasing a joiner ends in a sound kernel, unless a hart still runs it although it is dead.
pub release_joiner-IsSound :
    (self j : ℕ) (code : ℤ) {k : Kernel} {q : ℕ → List ℕ} {own : ℕ → Tid}
    → Inv k q own
    → self < max_harts
    → ((k.threads j).state ≡ zombie → IsAway k j)
    → (k' : Kernel) × (release_joiner self j code k ≡ done tt k') × IsSound k' × Delivered j k k'
unfolding release_joiner
release_joiner-IsSound self j code {k} {q} {own} v lt dead =
    let p = (k.threads j).join_status_ptr in
    let stored = store_int p code k in
    let ts : stored.threads ≡ k.threads = ground arith in
    let cpus : stored.cpus ≡ k.cpus = ground arith in
    let v' : Inv stored q own =
      Inv-cpus k stored q own v ts (ground arith)
        (λ h. subst (λ c. SameHart (k.cpus h) (c h)) (sym cpus) SameHart-refl) in
    let (k', run, sound, d) =
      thread_make_runnable-IsSound self j (joined (stored.threads j)) (stored.cpus self).hartid v'
        (record { state = refl; on_rq = refl; running_hart = refl; rq_next = refl })
        (rw (v'.harts self lt).hartid lt)
        (λ e.
          subst (λ c. (h : ℕ) → h < max_harts → (c h).current_tid ≢ some j) (sym cpus)
            (dead (ground (arith, ts)))) in
    let unmoved : Delivered j k stored = record {
      harts = λ h. subst (λ c. SameHart (k.cpus h) (c h)) (sym cpus) SameHart-refl;
      threads = λ a ne. ground (arith, ts);
      boot = ground arith;
      ticks = ground arith;
    } in
    (k', run, sound, Delivered-trans j k stored k' unmoved d)

finish_exit-unjoined :
    (self cur : ℕ) (code : ℤ) (t : Thread) (k : Kernel)
    → has_joiner t ≡ false
    → finish_exit self cur t.join_waiter code k ≡ done tt k
unfolding finish_exit
finish_exit-unjoined self cur code t k e = elim (Option-cases t.join_waiter) [
  | inl n ↦ rw n
  | inr (j, s) ↦ rw s (ground arith)
]

finish_exit-joined :
    (self cur j : ℕ) (code : ℤ) (t : Thread) (k k' : Kernel)
    → t.join_waiter ≡ some j
    → has_joiner t ≡ true
    → release_joiner self j code k ≡ done tt k'
    → finish_exit self cur t.join_waiter code k ≡ done tt (recycle_thread cur k')
unfolding finish_exit
finish_exit-joined self cur j code t k k' s e run =
    let small : ltb j thread_max ≡ true = ground arith in rw (s, small, run)

module _ (self cur : ℕ) (code : ℤ) (lt : self < max_harts) {k : Kernel} {q : ℕ → List ℕ}
    {own : ℕ → Tid} (v : Inv k q own) (now : (k.cpus self).current_tid ≡ some cur)
    (real : max_harts ≤ cur) where
  -- The thread is dead, and nothing else has happened.
  abbrev exited : Kernel
  exited =
      set_thread cur
        (record (k.threads cur) { exit_code = code; state = zombie; on_rq = false; rq_next = none })
        k

  exited-Inv : Inv exited q own
  exited-Inv =
      let r = v.current self cur lt now in
      Inv-thread cur k exited q own v (λ a ne. ground arith) refl refl
        (ground (arith, v.queues.flagged cur, r.unqueued)) (λ o. ground (arith, r.unqueued))
        (ground arith)
        (record {
          runnable_of_queued = λ o. ground (arith, r.unqueued);
          queued_of_runnable = λ big fits e. ground arith;
        })
        (λ h on. ground arith) (λ e. ground arith)

  -- What `thread_sys_exit` does last: it clears `join_waiter` and leaves.
  abbrev cleared : Kernel → Kernel
  cleared k' = set_thread cur (record (k'.threads cur) { join_waiter = none }) k'

  exit-run :
      (k' k'' : Kernel)
      → finish_exit self cur (k.threads cur).join_waiter code exited ≡ done tt k'
      → reschedule self (frame_of cur) (cleared k') ≡ done tt k''
      → thread_sys_exit self (frame_of cur) code k ≡ done tt k''
  unfolding thread_sys_exit
  exit-run k' k'' finish run = rw (now, finish) run

  alone-Leaving : Leaving self cur (cleared exited) q own
  alone-Leaving =
      stopped-Leaving self cur exited (cleared exited) q own exited-Inv lt now
        (λ a ne. ground arith) refl refl (ground arith) (inl (ground arith)) (λ e. ground arith)

  recycled-Leaving :
      (k' : Kernel) {q' : ℕ → List ℕ} {own' : ℕ → Tid}
      → Inv k' q' own'
      → (k'.cpus self).current_tid ≡ some cur
      → Leaving self cur (cleared (recycle_thread cur k')) q' own'
  unfolding recycle_thread recycled
  recycled-Leaving k' v' now' =
      let fits = (v.current self cur lt now).fits in
      stopped-Leaving self cur k' (cleared (recycle_thread cur k')) _ _ v' lt now'
        (λ a ne. ground arith) (ground arith) (ground arith) (ground arith) (inr (ground arith))
        (λ e. ground arith)

  -- The exit of the current thread, which is not idle, ends without a panic in a sound kernel,
  -- whether somebody joins it or not; the joiner must not be the thread itself nor a dead thread
  -- that some hart still runs.
  pub thread_sys_exit-IsSound :
      ((j : ℕ)
        → (k.threads cur).join_waiter ≡ some j
        → (j ≢ cur) × ((k.threads j).state ≡ zombie → IsAway k j))
      → (k' : Kernel) × (thread_sys_exit self (frame_of cur) code k ≡ done tt k') × IsSound k'
  thread_sys_exit-IsSound dead = elim (Bool-cases (has_joiner (k.threads cur))) [
    | inl waited ↦ elim (Option-cases (k.threads cur).join_waiter) [
      | inl e ↦ absurd (ground arith)
      | inr (j, e) ↦
          let (apart, gone) = dead j e in
          let (k1, released, (q1, own1, inv1), d) =
            release_joiner-IsSound self j code exited-Inv lt (λ z. gone (ground arith)) in
          let now1 : (k1.cpus self).current_tid ≡ some cur = (d.harts self).current ∙ now in
          let (k', own', run, next, inv) =
            reschedule-Inv self cur lt (recycled-Leaving k1 inv1 now1) in
          (
            k',
            exit-run (recycle_thread cur k1) k'
                (finish_exit-joined self cur j code (k.threads cur) exited k1 e waited released)
                run,
            (_, own', inv),
          )
    ]
    | inr unjoined ↦
        let (k', own', run, next, inv) = reschedule-Inv self cur lt alone-Leaving in
        (
          k',
          exit-run exited k' (finish_exit-unjoined self cur code (k.threads cur) exited unjoined)
              run,
          (_, own', inv),
        )
  ]
