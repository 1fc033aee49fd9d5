-- ===== src/Thread/Switch/Leave.antt =====
-- The first half of `schedule` (kernel/thread.c): the hart leaves its thread.
use ccos.Common.{
  ℕ, ◌≤◌, ◌<◌, ◌≡◌, refl, ap, ◌≢◌, Bool, true, none, some, List, arith, ltb, if◌then◌else◌, is_some,
  split_at, not, false, ◌&&◌, ◌++◌, ◌∷◌, [], ◌∙◌, Bool-cases, inl, inr,
}
use ccos.Kernel.{max_harts, Tid, runnable, running, Kernel, set_thread, update, in_state}
use ccos.Runqueue.Links.{Queues, Queues-same, OnlyQueues}
use ccos.Thread.{thread_mark_not_running, recycled, recycle_thread}
use ccos.Thread.Switch.{reap, leave, put_back}
use ccos.Thread.Invariant.{
  HartOk, RunsOn, Ready, Between, Ready-same, HartOk-same, RunsOn-same, Leaving,
}
use ccos.Kernel.Run.{done}
use ccos.Runqueue.{rq_push_tail}
use ccos.Runqueue.Push.{rq_push_tail-append}

-- Hart `self` still counts as running `cur`, which is queued if it is RUNNABLE.
record Parting (self cur : ℕ) (k : Kernel) (q : ℕ → List ℕ) (own : ℕ → Tid) : Type 0 where
  queues : Queues k q own
  ready : (t : ℕ) → Ready k own t
  harts : (h : ℕ) → h < max_harts → HartOk k h
  current :
      (h t : ℕ) → h < max_harts → h ≢ self → (k.cpus h).current_tid ≡ some t → RunsOn k own h t
  placed :
      (t h : ℕ)
      → (k.threads t).running_hart ≡ some h
      → (h < max_harts) × ((k.cpus h).current_tid ≡ some t)
  busy :
      (t : ℕ) → t ≢ cur → (k.threads t).state ≡ running → is_some (k.threads t).running_hart ≡ true
  here : (k.cpus self).current_tid ≡ some cur
  alone : (h : ℕ) → h < max_harts → h ≢ self → (k.cpus h).current_tid ≢ some cur
  stopped : max_harts ≤ cur → (k.threads cur).state ≢ running

module _ (self cur : ℕ) {k : Kernel} {q : ℕ → List ℕ} {own : ℕ → Tid} (v : Parting self cur k q own)
    (k' : Kernel) (others : (t : ℕ) → t ≢ cur → k'.threads t ≡ k.threads t)
    (rqs : k'.runqueues ≡ k.runqueues) (cpus : k'.cpus ≡ k.cpus) where
  Parting-Between :
      (k'.threads cur).running_hart ≡ none
      → (k'.threads cur).on_rq ≡ (k.threads cur).on_rq
      → (is_some (own cur) ≡ true → (k'.threads cur).rq_next ≡ (k.threads cur).rq_next)
      → Ready k' own cur
      → (k'.threads cur).state ≢ running
      → Between self k' q own
  Parting-Between gone flag next ready stopped = record {
    queues =
        Queues-same k k' q own v.queues
          (split_at (λ t. is_some (own t) ≡ true → (k'.threads t).rq_next ≡ (k.threads t).rq_next)
            cur next (λ t ne o. rw (others t ne)))
          (split_at (λ t. (k'.threads t).on_rq ≡ (k.threads t).on_rq) cur flag
            (λ t ne. rw (others t ne)))
          (λ h. rw rqs);
    ready =
        split_at (Ready k' own) cur ready
          (λ t ne. Ready-same k k' own own t (rw (others t ne)) refl (v.ready t));
    harts = λ h lt. HartOk-same k k' h (rw cpus) (v.harts h lt);
    current = λ h t lt ne now.
        let other : t ≢ cur = λ p. v.alone h lt ne (ground arith) in
        RunsOn-same k k' own own h t (rw cpus) (rw (others t other)) (rw (others t other)) refl
          (v.current h t lt ne (ground arith));
    placed =
        split_at
          (λ t.
            (h : ℕ)
            → (k'.threads t).running_hart ≡ some h
            → (h ≢ self) × (h < max_harts) × ((k'.cpus h).current_tid ≡ some t))
          cur (λ h e. absurd (ground arith))
          (λ t ne h e. ground (
            arith,
            v.placed t h,
            others t ne,
            v.here,
            ap (λ g. (k.cpus g).current_tid) {x = h} {y = self},
          ));
    busy =
        split_at (λ t. (k'.threads t).state ≡ running → is_some (k'.threads t).running_hart ≡ true)
          cur (λ e. absurd (stopped e)) (λ t ne e. ground (arith, v.busy t ne, others t ne));
  }

-- What `leave` does behind `put_back`.
abbrev left : ℕ → Bool → Kernel → Kernel
left cur idle k =
    let k1 = set_thread cur (thread_mark_not_running (k.threads cur)) k in
    reap cur idle (
      set_thread cur (if idle then record (k1.threads cur) { state = runnable } else k1.threads cur)
        k1)

-- The thread has left the hart; if it is to be recycled, it has been.
left-Between :
    (self cur : ℕ) (idle : Bool) {k : Kernel} {q : ℕ → List ℕ} {own : ℕ → Tid}
    → Parting self cur k q own
    → idle ≡ ltb cur max_harts
    → Between self (left cur idle k) q own
unfolding thread_mark_not_running reap recycle_thread recycled
left-Between self cur idle {k} {q} {own} v e =
    let r = v.ready cur in
    let flag = v.queues.flagged cur in
    Parting-Between self cur v (left cur idle k) (λ t ne. ground arith) (ground arith)
      (ground arith) (ground arith) (ground (arith, flag, r.runnable_of_queued))
      (λ o. ground (arith, r.runnable_of_queued))
      (record {
        runnable_of_queued = λ o. ground (arith, r.runnable_of_queued);
        queued_of_runnable = λ real fits s. ground (arith, r.queued_of_runnable);
      })
      (λ s. ground (arith, v.stopped))

-- `put_back` queues a thread that is still running, and leaves any other as it is.
abbrev pub queued : Kernel → ℕ → Bool
queued k cur = not (ltb cur max_harts) && in_state (k.threads cur).state running

module _ (self cur : ℕ) {k : Kernel} {q : ℕ → List ℕ} {own : ℕ → Tid} (v : Leaving self cur k q own)
    (lt : self < max_harts) where
  unqueued-Parting : queued k cur ≡ false → Parting self cur k q own
  unqueued-Parting stays = record {
    queues = v.queues;
    ready =
        split_at (Ready k own) cur
          (record {
            runnable_of_queued = λ o. absurd (ground (arith, v.unqueued));
            queued_of_runnable = λ real fits e. absurd (v.not_runnable real e);
          })
          v.ready;
    harts = v.harts;
    current = v.current;
    placed = v.placed;
    busy = v.busy;
    here = v.here;
    alone = v.alone;
    stopped = λ real e. ground arith;
  }

  abbrev woken : Kernel
  woken = set_thread cur (record (k.threads cur) { state = runnable }) k

  woken-Queues : Queues woken q own
  woken-Queues =
      Queues-same k woken q own v.queues (λ t o. ground arith) (λ t. ground arith) (λ h. refl)

  queued-Parting :
      (k' : Kernel)
      → max_harts ≤ cur
      → Queues k' (update q self (q self ++ cur ∷ [])) (update own cur (some self))
      → OnlyQueues woken k'
      → Parting self cur k' (update q self (q self ++ cur ∷ [])) (update own cur (some self))
  queued-Parting k' real queues only =
      let state : (t : ℕ) → (k'.threads t).state ≡ (woken.threads t).state =
        λ t. ap (λ u. u.state) (only.threads t) in
      let hart : (t : ℕ) → (k'.threads t).running_hart ≡ (k.threads t).running_hart =
        λ t. ap (λ u. u.running_hart) (only.threads t) ∙ ground arith in
      let cpus : (h : ℕ) → k'.cpus h ≡ k.cpus h = λ h. ap (λ n. n.cpus h) only.others in
      record {
        queues = queues;
        ready =
            split_at (Ready k' (update own cur (some self))) cur
              (record {
                runnable_of_queued = λ o. ground (arith, state cur);
                queued_of_runnable = λ r f e. ground arith;
              })
              (λ t ne.
                Ready-same k k' own (update own cur (some self)) t (ground (arith, state t))
                  (ground arith) (v.ready t ne));
        harts = λ h small. HartOk-same k k' h (cpus h) (v.harts h small);
        current = λ h t small ne now.
            let other : t ≢ cur = λ p. v.alone h small ne (ground (arith, cpus h)) in
            RunsOn-same k k' own (update own cur (some self)) h t (cpus h) (ground (arith, state t))
              (hart t) (ground arith) (v.current h t small ne (ground (arith, cpus h)));
        placed = λ t h e. ground (arith, v.placed t h, hart t, cpus h);
        busy = λ t ne e. ground (arith, v.busy t ne, hart t, state t);
        here = ground (arith, v.here, cpus self);
        alone = λ h small ne e. v.alone h small ne (ground (arith, cpus h));
        stopped = λ r e. ground (arith, state cur);
      }

  abbrev pub parted_q : ℕ → List ℕ
  parted_q = if queued k cur then update q self (q self ++ cur ∷ []) else q

  abbrev pub parted_own : ℕ → Tid
  parted_own = if queued k cur then update own cur (some self) else own

  put_back-queued :
      (k' : Kernel)
      → queued k cur ≡ true
      → rq_push_tail self (some cur) woken ≡ done tt k'
      → put_back self cur (ltb cur max_harts) k ≡ done tt k'
  unfolding put_back
  put_back-queued k' back run = rw back run

  put_back-stays : queued k cur ≡ false → put_back self cur (ltb cur max_harts) k ≡ done tt k
  unfolding put_back
  put_back-stays stays = rw stays

  leave-left :
      (k' : Kernel)
      → put_back self cur (ltb cur max_harts) k ≡ done tt k'
      → leave self cur (ltb cur max_harts) k ≡ done tt (left cur (ltb cur max_harts) k')
  unfolding leave
  leave-left k' run = rw run

  left-cpus : (idle : Bool) (k' : Kernel) (h : ℕ) → (left cur idle k').cpus h ≡ k'.cpus h
  unfolding reap recycle_thread
  left-cpus idle k' h = ground arith

  left-boot : (idle : Bool) (k' : Kernel) → (left cur idle k').boot_hartid ≡ k'.boot_hartid
  unfolding reap recycle_thread
  left-boot idle k' = ground arith

  -- `schedule` leaves the thread `cur`: the thread goes to the end of the queue if it is still
  -- running and is not idle.
  pub leave-Between :
      (k' : Kernel) × (leave self cur (ltb cur max_harts) k ≡ done tt k')
      × Between self k' parted_q parted_own
      × ((h : ℕ) → k'.cpus h ≡ k.cpus h)
      × (k'.boot_hartid ≡ k.boot_hartid)
  leave-Between = elim (Bool-cases (queued k cur)) [
    | inl back ↦
        let (k1, run, queues, only) =
          rq_push_tail-append woken self cur woken-Queues lt (ground arith) v.fits v.unqueued in
        (
          left cur (ltb cur max_harts) k1,
          leave-left k1 (put_back-queued k1 back run),
          rw back (
              left-Between self cur (ltb cur max_harts)
                (queued-Parting k1 (ground arith) queues only) refl),
          λ h. left-cpus (ltb cur max_harts) k1 h ∙ ap (λ n. n.cpus h) only.others,
          left-boot (ltb cur max_harts) k1 ∙ ap (λ n. n.boot_hartid) only.others,
        )
    | inr stays ↦ (
      left cur (ltb cur max_harts) k,
      leave-left k (put_back-stays stays),
      rw stays (left-Between self cur (ltb cur max_harts) (unqueued-Parting stays) refl),
      λ h. left-cpus (ltb cur max_harts) k h,
      left-boot (ltb cur max_harts) k,
    )
  ]
