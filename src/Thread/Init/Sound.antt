-- ===== src/Thread/Init/Sound.antt =====
-- `threads_init` of kernel/thread.c leaves a sound kernel in which `user_main` is queued.
use ccos.Common.{
  ℕ, ◌≤◌, ◌<◌, ◌≡◌, refl, sym, ap, ◌∙◌, inl, inr, false, ◌||◌, none, some, [], ◌∷◌, arith, ltb,
  ◌==◌, if◌then◌else◌, codes, Bool-cases, Option-cases, split_at,
}
use ccos.Kernel.{
  thread_max, max_harts, first_tid, unused, runnable, running, in_state, Thread, Kernel, Machine,
  update, set_thread,
}
use ccos.Kernel.Run.{done}
use ccos.Cpu.{cpu_current_hartid}
use ccos.Runqueue.{rq_push_tail}
use ccos.Thread.{
  enqueue, thread_make_runnable, alloc_thread_slot, init_thread_context_s, init_thread_context_u,
  thread_create_user, start_thread, fresh_user, init_context,
}
use ccos.Thread.Create.{IsFirstFree, alloc_thread_slot-IsFirstFree}
use ccos.Thread.Init.{blank, idle_thread, idle_table, threads_init}
use ccos.Thread.Init.Table.{idle_table-threads, idle_table-cpus, idle_table-Queues}
use ccos.Runqueue.Links.{Queues, OnlyQueues, Queues-same}
use ccos.Runqueue.Push.{rq_push_tail-append}
use ccos.Thread.Frame.{SameHart, SameHart-refl, SameHart-trans}
use ccos.Thread.Runnable.{notified, notified-Delivered, notified-others, notify-notified}
use ccos.Sched.{sched_pick_target_hart}
use ccos.Sched.Pick.{sched_pick_target_hart-lt}
use mathlib.Core.Path.{subst}

-- The model's slots beyond the table hold nothing.
pub record IsCold (k : Kernel) : Type 0 where
  pub state : (t : ℕ) → thread_max ≤ t → (k.threads t).state ≡ unused
  pub on_rq : (t : ℕ) → thread_max ≤ t → (k.threads t).on_rq ≡ false
  pub running_hart : (t : ℕ) → thread_max ≤ t → (k.threads t).running_hart ≡ none

-- The kernel once the threads are set up: the idle threads are RUNNABLE, and one thread more, which is on
-- the queue of the hart `home`.
pub record IsStarted (k k' : Kernel) : Type 0 where
  pub home : ℕ
  pub queues :
      Queues k' (update (λ _. []) home (first_tid ∷ [])) (update (λ _. none) first_tid (some home))
  pub state :
      (t : ℕ)
      → (k'.threads t).state ≡ (if ltb t max_harts || (t == first_tid) then runnable else unused)
  pub running_hart : (t : ℕ) → (k'.threads t).running_hart ≡ none
  pub harts : (h : ℕ) → SameHart (k.cpus h) (k'.cpus h)

-- A RUNNABLE thread in the first slot that is on no queue goes to the queue of `target`.
make_first-run :
    (self target preferred : ℕ) (k l : Kernel)
    → (k.threads first_tid).on_rq ≡ false
    → (k.threads first_tid).state ≡ runnable
    → sched_pick_target_hart preferred k ≡ target
    → rq_push_tail target (some first_tid) (
        set_thread first_tid (record (k.threads first_tid) { state = runnable; wakeup_tick = 0 }) k)
      ≡ done tt l
    → thread_make_runnable self (some first_tid) preferred k ≡ done tt (notified self target l)
unfolding thread_make_runnable enqueue
make_first-run self target preferred k l flag state picked pushed =
    let test : ((k.threads first_tid).on_rq || in_state (k.threads first_tid).state running)
        ≡ false =
      ground (arith, flag, state) in
    rw (test, picked, pushed, notify-notified self target l) refl

module _ (m : Machine) {k : Kernel} (cold : IsCold k) where
  abbrev table : Kernel
  table = idle_table m k

  table-state : (t : ℕ) → (table.threads t).state ≡ (if ltb t max_harts then runnable else unused)
  unfolding idle_thread blank init_thread_context_s init_context
  table-state t = ground (arith, idle_table-threads m k t, cold.state t)

  table-on_rq : (t : ℕ) → (table.threads t).on_rq ≡ false
  unfolding idle_thread blank init_thread_context_s init_context
  table-on_rq t = ground (arith, idle_table-threads m k t, cold.on_rq t)

  table-running_hart : (t : ℕ) → (table.threads t).running_hart ≡ none
  unfolding idle_thread blank init_thread_context_s init_context
  table-running_hart t = ground (arith, idle_table-threads m k t, cold.running_hart t)

  table-Queues : Queues table (λ _. []) (λ _. none)
  table-Queues = idle_table-Queues m k table-on_rq

  -- The first free slot is the one behind the idle threads.
  table-first_tid : alloc_thread_slot table ≡ some first_tid
  unfolding IsFirstFree
  table-first_tid =
      let found = alloc_thread_slot-IsFirstFree table in
      elim (Option-cases (alloc_thread_slot table)) [
        | inl e ↦
            let none_free = rw e at found in
            absurd (none_free first_tid (omega arith) (omega arith) (table-state first_tid))
        | inr (t, e) ↦
            let (pos, fits, free, first) = rw e at found in
            let up : first_tid ≤ t = ground (arith, table-state t) in
            let same : t ≡ first_tid = elim (Bool-cases (ltb first_tid t)) [
              | inl l ↦
                  absurd (first first_tid (omega arith) (ground arith) (table-state first_tid))
              | inr g ↦ ground arith
            ] in
            e ∙ ap some same
      ]

  abbrev fill_main : ℕ → Thread → Thread
  fill_main user_main t =
      init_thread_context_u m (fresh_user m first_tid (some (codes "user_main")) t) user_main 0

  -- `user_main` in its slot, before it is queued.
  abbrev filled_main : ℕ → Kernel
  filled_main user_main = set_thread first_tid (fill_main user_main (table.threads first_tid)) table

  abbrev readied_main : ℕ → Kernel
  readied_main user_main =
      let l = filled_main user_main in
      set_thread first_tid (record (l.threads first_tid) { state = runnable; wakeup_tick = 0 }) l

  readied_main-on_rq : (user_main t : ℕ) → ((readied_main user_main).threads t).on_rq ≡ false
  unfolding init_thread_context_u init_context fresh_user
  readied_main-on_rq user_main =
      split_at (λ t. ((readied_main user_main).threads t).on_rq ≡ false) first_tid
        (ground (arith, table-on_rq first_tid)) (λ t ne. ground (arith, table-on_rq t))

  readied_main-state :
      (user_main t : ℕ)
      → ((readied_main user_main).threads t).state
        ≡ (if ltb t max_harts || (t == first_tid) then runnable else unused)
  readied_main-state user_main =
      split_at
        (λ t.
          ((readied_main user_main).threads t).state
          ≡ (if ltb t max_harts || (t == first_tid) then runnable else unused))
        first_tid (ground arith) (λ t ne. ground (arith, table-state t))

  readied_main-running_hart :
      (user_main t : ℕ) → ((readied_main user_main).threads t).running_hart ≡ none
  unfolding init_thread_context_u init_context fresh_user
  readied_main-running_hart user_main =
      split_at (λ t. ((readied_main user_main).threads t).running_hart ≡ none) first_tid
        (ground (arith, table-running_hart first_tid))
        (λ t ne. ground (arith, table-running_hart t))

  readied_main-Queues : (user_main : ℕ) → Queues (readied_main user_main) (λ _. []) (λ _. none)
  readied_main-Queues user_main =
      Queues-same table (readied_main user_main) (λ _. []) (λ _. none) table-Queues
        (λ a o. absurd (ground arith)) (λ a. readied_main-on_rq user_main a ∙ sym (table-on_rq a))
        (λ g. refl)

  -- `user_main` is queued on `target`.
  start_main-run :
      (self user_main target : ℕ) (l : Kernel)
      → sched_pick_target_hart
          (cpu_current_hartid self (filled_main user_main))
          (filled_main user_main)
        ≡ target
      → rq_push_tail target (some first_tid) (readied_main user_main) ≡ done tt l
      → start_thread self first_tid (fill_main user_main) table
        ≡ done (some first_tid) (notified self target l)
  unfolding start_thread init_thread_context_u init_context fresh_user
  start_main-run self user_main target l picked pushed =
      let run =
        make_first-run self target (cpu_current_hartid self (filled_main user_main))
          (filled_main user_main) l (ground (arith, table-on_rq first_tid)) refl picked pushed in
      rw run refl

  create_main-run :
      (self user_main : ℕ)
      → thread_create_user m self user_main 0 (some (codes "user_main")) table
        ≡ start_thread self first_tid (fill_main user_main) table
  unfolding thread_create_user
  create_main-run self user_main = rw (thread_create_user, table-first_tid) refl

  module _ (self user_main : ℕ) (lt : self < max_harts) (me : (k.cpus self).hartid ≡ self) where
    abbrev home_hart : ℕ
    home_hart =
        sched_pick_target_hart (cpu_current_hartid self (filled_main user_main))
          (filled_main user_main)

    home_hart-lt : home_hart < max_harts
    home_hart-lt =
        sched_pick_target_hart-lt (filled_main user_main)
          (cpu_current_hartid self (filled_main user_main)) (rw (idle_table-cpus m k, me) lt)

    -- What the push leaves is started, whatever interrupt it brings.
    notified-IsStarted :
        (l : Kernel)
        → Queues l
            (update (λ _. []) home_hart (first_tid ∷ []))
            (update (λ _. none) first_tid (some home_hart))
        → OnlyQueues (readied_main user_main) l
        → IsStarted k (notified self home_hart l)
    notified-IsStarted l queues only =
        let (threads, rqs) = notified-others self home_hart l in
        let d = notified-Delivered self home_hart first_tid l in
        record {
          home = home_hart;
          queues =
              Queues-same l (notified self home_hart l)
                (update (λ _. []) home_hart (first_tid ∷ []))
                (update (λ _. none) first_tid (some home_hart)) queues
                (λ a o. ap (λ ts. (ts a).rq_next) threads) (λ a. ap (λ ts. (ts a).on_rq) threads)
                (λ g. ap (λ r. r g) rqs);
          state = λ t.
              ap (λ ts. (ts t).state) threads
              ∙ ap (λ u. u.state) (only.threads t)
              ∙ readied_main-state user_main t;
          running_hart = λ t.
              ap (λ ts. (ts t).running_hart) threads
              ∙ ap (λ u. u.running_hart) (only.threads t)
              ∙ readied_main-running_hart user_main t;
          harts = λ h.
              SameHart-trans
                (subst (λ c. SameHart (k.cpus h) (c h))
                  (sym (ap (λ n. n.cpus) only.others ∙ idle_table-cpus m k)) SameHart-refl)
                (d.harts h);
        }

    -- `threads_init` ends without a panic, its assert included: the idle threads wait for their harts, and
    -- `user_main` has the first slot behind them and is queued.
    pub threads_init-IsStarted :
        (k' : Kernel) × (threads_init m self user_main k ≡ done tt k') × IsStarted k k'
    unfolding threads_init
    threads_init-IsStarted =
        let (l, pushed, queues, only) =
          rq_push_tail-append (readied_main user_main) home_hart first_tid
            (readied_main-Queues user_main) home_hart-lt (omega arith) (omega arith) refl in
        (
          notified self home_hart l,
          rw (create_main-run self user_main, start_main-run self user_main home_hart l refl pushed)
              refl,
          notified-IsStarted l queues only,
        )
