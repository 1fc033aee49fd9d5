-- ===== src/Thread/Switch/Schedule.antt =====
-- `schedule` of kernel/thread.c as a whole: what it runs next, and that it keeps the invariant.
use ccos.Common.{
  ℕ, suc, ◌<◌, ◌≡◌, refl, ap, ◌∙◌, inl, inr, not, ◌&&◌, none, some, List, [], ◌∷◌, ◌++◌, arith, ltb,
  ◌==◌, if◌then◌else◌, same, is_some, ==_refl, Bool-cases,
}
use ccos.Kernel.{max_harts, sched_slice_ticks, Tid, running, in_state, frame_of, Kernel, update}
use ccos.Kernel.Run.{done}
use ccos.Runqueue.{rq_pop_head}
use ccos.Runqueue.Links.{OnlyQueues}
use ccos.Runqueue.Pop.{head-own, rq_pop_head-cons, rq_pop_head-nil}
use ccos.Thread.Switch.{leave, next_loop, switch_to, schedule}
use ccos.Thread.Invariant.{Inv, Leaving, Between}
use ccos.Thread.Switch.Leave.{leave-Between, parted_q}
use ccos.Thread.Switch.Take.{switch_to-Inv, idle-Taking, popped-Taking}
use mathlib.Core.Path.{subst, fun_ext}

-- The thread at the head of a queue, or the idle thread of the hart.
abbrev pub first_or : ℕ → List ℕ → ℕ
first_or idle [] = idle
first_or idle (x ∷ xs) = x

abbrev pub rest_of : List ℕ → List ℕ
rest_of [] = []
rest_of (x ∷ xs) = xs

-- The hart's queue once `schedule` has put the current thread back, if it is still running.
abbrev pub queue_after : Kernel → ℕ → ℕ → List ℕ → List ℕ
queue_after k self cur xs =
    if not (ltb cur max_harts) && in_state (k.threads cur).state running then xs ++ cur ∷ [] else xs

module _ (self : ℕ) {k : Kernel} {q : ℕ → List ℕ} {own : ℕ → Tid} (lt : self < max_harts)
    (v : Between self k q own) where
  next_loop-nil : q self ≡ [] → (f : ℕ) → next_loop (suc f) self k ≡ done none k
  unfolding next_loop
  next_loop-nil e f = rw (rq_pop_head-nil k self lt (rw e at (v.queues.each self lt)))

  next_loop-cons :
      (x : ℕ) (k1 : Kernel)
      → own x ≡ some self
      → OnlyQueues k k1
      → rq_pop_head self k ≡ done (some x) k1
      → (f : ℕ) → next_loop (suc f) self k ≡ done (some x) k1
  unfolding next_loop
  next_loop-cons x k1 mine only run f = rw run (
      ground
        (arith, (v.ready x).runnable_of_queued (ground arith), ap (λ u. u.state) (only.threads x)))

  -- The hart takes up the first thread of its queue, or its idle thread.
  take-Inv :
      (cur : Tid)
      → (k.cpus self).idle_tid ≡ some self
      → (xs : List ℕ) → q self ≡ xs
      → (f : ℕ)
      → (k1 : Kernel) × (own' : ℕ → Tid) × (found : Tid) × (next_loop (suc f) self k
          ≡ done found k1)
        × ((if is_some found then found else (k.cpus self).idle_tid) ≡ some (first_or self xs))
        × Inv (switch_to self cur (first_or self xs) k1) (update q self (rest_of xs)) own'
        × (k1.boot_hartid ≡ k.boot_hartid)
  take-Inv cur idle [] e f = (
    k,
    own,
    none,
    next_loop-nil e f,
    idle,
    subst (λ p. Inv (switch_to self cur self k) p own)
        (fun_ext λ h. ground (arith, e, ap q {x = h} {y = self}))
        (switch_to-Inv self self cur (idle-Taking self v lt idle) lt),
    refl,
  )
  take-Inv cur idle (x ∷ xs) e f =
      let (k1, run, queues, only) = rq_pop_head-cons k self x xs v.queues lt e in
      let mine = head-own k self x xs v.queues lt e in
      (
        k1,
        update own x none,
        some x,
        next_loop-cons x k1 mine only run f,
        refl,
        switch_to-Inv self x cur (popped-Taking self x xs k1 v lt idle mine queues only) lt,
        ap (λ n. n.boot_hartid) only.others,
      )

switch_to-current :
    (self : ℕ) (cur : Tid) (next : ℕ) (k : Kernel)
    → ((switch_to self cur next k).cpus self).current_tid ≡ some next
unfolding switch_to
switch_to-current self cur next k = ground arith

switch_to-slice :
    (self : ℕ) (cur : Tid) (next : ℕ) (k : Kernel)
    → ((switch_to self cur next k).cpus self).slice_left ≡ sched_slice_ticks
unfolding switch_to
switch_to-slice self cur next k = ground arith

switch_to-boot :
    (self : ℕ) (cur : Tid) (next : ℕ) (k : Kernel)
    → (switch_to self cur next k).boot_hartid ≡ k.boot_hartid
unfolding switch_to
switch_to-boot self cur next k = refl

module _ (self cur : ℕ) {k : Kernel} {q : ℕ → List ℕ} {own : ℕ → Tid} (lt : self < max_harts)
    (v : Leaving self cur k q own) where
  same_idle : same (k.cpus self).current_tid (k.cpus self).idle_tid ≡ ltb cur max_harts
  same_idle =
      let idle = (v.harts self lt).idle (ground (arith, v.here)) in
      ground (arith, idle, v.here, v.idle)

  schedule-run :
      (k' k1 : Kernel) (found : Tid) (next : ℕ)
      → leave self cur (ltb cur max_harts) k ≡ done tt k'
      → ((h : ℕ) → k'.cpus h ≡ k.cpus h)
      → next_loop (suc (k'.runqueues self).len) self k' ≡ done found k1
      → (if is_some found then found else (k'.cpus self).idle_tid) ≡ some next
      → schedule self (frame_of cur) k
        ≡ done (frame_of next) (switch_to self (k.cpus self).current_tid next k1)
  unfolding schedule
  schedule-run k' k1 found next left cpus run e =
      let hartid = (v.harts self lt).hartid in
      rw (
        v.tf,
        same_idle,
        v.here,
        ==_refl,
        hartid,
        left,
        run,
        subst (λ c. (if is_some found then found else c.idle_tid) ≡ some next) (cpus self) e,
      )

  -- The same with the slice that the thread is given, and the boot hart.
  pub schedule-turn :
      let xs = queue_after k self cur (q self) in
      (k' : Kernel) × (own' : ℕ → Tid) × (schedule self (frame_of cur) k
        ≡ done (frame_of (first_or self xs)) k')
      × ((k'.cpus self).current_tid ≡ some (first_or self xs))
      × Inv k' (update q self (rest_of xs)) own'
      × ((k'.cpus self).slice_left ≡ sched_slice_ticks)
      × (k'.boot_hartid ≡ k.boot_hartid)
  schedule-turn =
      let (k', left, between, cpus, boot) = leave-Between self cur v lt in
      let idle =
        ap (λ c. c.idle_tid) (cpus self) ∙ (v.harts self lt).idle (ground (arith, v.here)) in
      let (k1, own', found, run, next, inv, boot') =
        take-Inv self lt between (k.cpus self).current_tid idle (queue_after k self cur (q self))
          parted-queue (k'.runqueues self).len in
      (
        switch_to self (k.cpus self).current_tid (first_or self (queue_after k self cur (q self)))
            k1,
        own',
        schedule-run k' k1 found (first_or self (queue_after k self cur (q self))) left cpus run
            next,
        switch_to-current self (k.cpus self).current_tid _ k1,
        subst
            (λ p.
              Inv
                (switch_to self (k.cpus self).current_tid
                  (first_or self (queue_after k self cur (q self))) k1)
                p own')
            (fun_ext λ h. parted-others h) inv,
        switch_to-slice self (k.cpus self).current_tid _ k1,
        switch_to-boot self (k.cpus self).current_tid _ k1 ∙ boot' ∙ boot,
      )
    where
      parted-queue : parted_q self cur v lt self ≡ queue_after k self cur (q self)
      parted-queue = ground arith

      parted-others :
          (h : ℕ)
          → update (parted_q self cur v lt) self (rest_of (queue_after k self cur (q self))) h
            ≡ update q self (rest_of (queue_after k self cur (q self))) h
      parted-others h = elim (Bool-cases (h == self)) [
        | inl e ↦ rw e
        | inr ne ↦ rw ne (ground arith)
      ]

  -- When a hart enters `schedule` from the thread `cur`, the thread goes to the end of the hart's
  -- queue if it is still running, and is idle or gone otherwise; the hart then runs the thread at
  -- the head of that queue, or its idle thread if the queue is empty. The invariant holds again.
  pub schedule-Inv :
      let xs = queue_after k self cur (q self) in
      (k' : Kernel) × (own' : ℕ → Tid) × (schedule self (frame_of cur) k
        ≡ done (frame_of (first_or self xs)) k')
      × ((k'.cpus self).current_tid ≡ some (first_or self xs))
      × Inv k' (update q self (rest_of xs)) own'
  schedule-Inv =
      let (k', own', run, next, inv, slice, boot) = schedule-turn in (k', own', run, next, inv)
