-- ===== src/Thread/Switch/Tick.antt =====
-- `threads_tick` and `thread_wake` of kernel/thread.c: who is woken, and that the kernel stays sound.
use ccos.Common.{
  ℕ, zero, suc, ◌+◌, ◌≤◌, ◌<◌, ◌≡◌, refl, ap, ◌∙◌, ◌≢◌, inl, inr, true, false, not, ◌&&◌, ◌||◌,
  none, some, List, arith, leb, if◌then◌else◌, Bool-cases, Option-cases, split_at, ◌%◌, ◌^◌,
  get_elem?, ◌++◌, ◌∷◌, [], ◌==◌, get_elem?-append,
}
use ccos.Kernel.{
  thread_max, max_harts, Tid, ThreadState, runnable, sleeping, blocked, in_state, Thread, Kernel,
  set_thread, update,
}
use ccos.Kernel.Run.{done}
use ccos.Thread.{thread_make_runnable}
use ccos.Thread.Switch.{thread_wake, threads_tick, tick_slot, tick_loop}
use ccos.Thread.Invariant.{Inv, IsSound, IsAway}
use ccos.Thread.Frame.{SameHart, SameHart-refl, Delivered, Inv-cpus, SameHart-trans}
use ccos.Thread.Wake.{set_thread-Inv, thread_make_runnable-IsSound, set_thread_self}
use ccos.Thread.Runnable.{thread_make_runnable-turn}
use ccos.Cpu.{cpu_current_hartid}
use ccos.Sched.{sched_pick_target_hart}

-- What the tick number `now` makes of the state of thread `t`: a thread that sleeps until then, or
-- until an earlier tick, becomes RUNNABLE, unless it is an idle thread.
abbrev pub state_after_tick : ℕ → ℕ → Thread → ThreadState
state_after_tick now t u =
    if leb max_harts t && (in_state u.state sleeping && leb u.wakeup_tick now)
    then runnable
    else u.state

-- A sound kernel in which the queues are those of before with threads added at their ends, so that each
-- thread has kept its place.
pub record Grown (q : ℕ → List ℕ) (k' : Kernel) : Type 0 where
  pub q' : ℕ → List ℕ
  pub own' : ℕ → Tid
  pub inv : Inv k' q' own'
  pub place : (h i : ℕ) {t : ℕ} → get_elem? (q h) i ≡ some t → get_elem? (q' h) i ≡ some t

-- No hart's time slice changes.
abbrev pub SameSlices : Kernel → Kernel → Type 0
SameSlices k k' = (h : ℕ) → (k'.cpus h).slice_left ≡ (k.cpus h).slice_left

append-place :
    (q : ℕ → List ℕ) (g a h i : ℕ) {t : ℕ}
    → get_elem? (q h) i ≡ some t
    → get_elem? (update q g (q g ++ a ∷ []) h) i ≡ some t
append-place q g a h i e = elim (Bool-cases (h == g)) [
  | inl here ↦
      let same_hart : h ≡ g = ground arith in
      rw here (get_elem?-append (q g) (a ∷ []) i (rw same_hart at e))
  | inr there ↦ rw there e
]

-- The same for what the tick has done when it is through with a slot.
record Ticked (i : ℕ) (q : ℕ → List ℕ) (k k' : Kernel) : Type 0 where
  grown : Grown q k'
  slices : SameSlices k k'
  delivered : Delivered i k k'
  state : (k'.threads i).state ≡ state_after_tick k.ticks i (k.threads i)

module _ (self i : ℕ) (fits : i < thread_max) {k : Kernel} {q : ℕ → List ℕ} {own : ℕ → Tid}
    (v : Inv k q own) (lt : k.boot_hartid < max_harts) where
  abbrev alarm : Thread
  alarm = record (k.threads i) { wakeup_tick = 0 }

  tick_slot-due :
      max_harts ≤ i
      → (k.threads i).state ≡ sleeping
      → leb (k.threads i).wakeup_tick k.ticks ≡ true
      → (k' : Kernel) × (tick_slot self i k ≡ done tt k') × Ticked i q k k'
  unfolding tick_slot
  tick_slot-due real asleep due =
      let free : own i ≡ none = ground (arith, (v.ready i).runnable_of_queued) in
      let away : IsAway k i = λ h small now. ground (arith, (v.current h i small now).state) in
      let hart : (k.threads i).running_hart ≡ none =
        elim (Option-cases (k.threads i).running_hart) [
          | inl e ↦ e
          | inr (h, e) ↦ let (small, now) = v.placed i h e in absurd (away h small now)
        ] in
      let test : (in_state (k.threads i).state sleeping && leb (k.threads i).wakeup_tick k.ticks)
          ≡ true =
        ground arith in
      let target = sched_pick_target_hart k.boot_hartid (set_thread i alarm k) in
      let (k', run, inv, d, slices) =
        thread_make_runnable-turn self i alarm v real fits free away
          (ground (arith, v.queues.flagged i)) hart (λ e. ground arith) k.boot_hartid lt in
      (
        k',
        rw test run,
        record {
          grown = record {
            q' = _;
            own' = _;
            inv = inv;
            place = λ h j e. append-place q target i h j e;
          };
          slices = slices;
          delivered = d;
          state = ground (arith, (inv.ready i).runnable_of_queued);
        },
      )

  tick_slot-Ticked : (k' : Kernel) × (tick_slot self i k ≡ done tt k') × Ticked i q k k'
  unfolding tick_slot thread_make_runnable
  tick_slot-Ticked =
      elim (Bool-cases
        (in_state (k.threads i).state sleeping && leb (k.threads i).wakeup_tick k.ticks)) [
          | inl e ↦ elim (Bool-cases (leb max_harts i)) [
            | inl real ↦ tick_slot-due (ground arith) (ground arith) (ground arith)
            | inr small ↦ (
              set_thread i alarm k,
              ground arith,
              record {
                grown = record {
                  q' = q;
                  own' = own;
                  inv =
                      set_thread-Inv i alarm v (record {
                        state = refl;
                        on_rq = refl;
                        running_hart = refl;
                        rq_next = refl;
                      });
                  place = λ h j e. e;
                };
                slices = λ h. refl;
                delivered = record {
                  harts = λ h. SameHart-refl;
                  threads = λ a ne. ground arith;
                  boot = refl;
                  ticks = refl;
                };
                state = ground arith;
              },
            )
          ]
          | inr e ↦ (
            k,
            ground arith,
            record {
              grown = record { q' = q; own' = own; inv = v; place = λ h j e. e };
              slices = λ h. refl;
              delivered = record {
                harts = λ h. SameHart-refl;
                threads = λ a ne. refl;
                boot = refl;
                ticks = refl;
              };
              state = ground arith;
            },
          )
        ]

-- The rounds for the slots from `i` on.
pub record AllTicked (i : ℕ) (q : ℕ → List ℕ) (k k' : Kernel) : Type 0 where
  pub grown : Grown q k'
  pub slices : SameSlices k k'
  pub harts : (h : ℕ) → SameHart (k.cpus h) (k'.cpus h)
  pub boot : k'.boot_hartid ≡ k.boot_hartid
  pub ticks : k'.ticks ≡ k.ticks
  pub before : (a : ℕ) → a < i → (k'.threads a).state ≡ (k.threads a).state
  pub state :
      (a : ℕ)
      → i ≤ a
      → a < thread_max
      → (k'.threads a).state ≡ state_after_tick k.ticks a (k.threads a)

tick_loop-step :
    (i : ℕ) (q : ℕ → List ℕ) (k l m : Kernel) (t : Ticked i q k l)
    → AllTicked (suc i) t.grown.q' l m
    → AllTicked i q k m
tick_loop-step i q k l m t rest =
    let d = t.delivered in
    let same_state : (a : ℕ) → a ≢ i → (l.threads a).state ≡ (k.threads a).state =
      λ a ne. ap (λ u. u.state) (d.threads a ne) in
    let same_wakeup : (a : ℕ) → a ≢ i → (l.threads a).wakeup_tick ≡ (k.threads a).wakeup_tick =
      λ a ne. ap (λ u. u.wakeup_tick) (d.threads a ne) in
    record {
      grown = record {
        q' = rest.grown.q';
        own' = rest.grown.own';
        inv = rest.grown.inv;
        place = λ h j e. rest.grown.place h j (t.grown.place h j e);
      };
      slices = λ h. rest.slices h ∙ t.slices h;
      harts = λ h. SameHart-trans (d.harts h) (rest.harts h);
      boot = rest.boot ∙ d.boot;
      ticks = rest.ticks ∙ d.ticks;
      before = λ a lt. rest.before a (omega arith) ∙ same_state a (omega arith);
      state =
          split_at
            (λ a.
              i ≤ a
              → a < thread_max
              → (m.threads a).state ≡ state_after_tick k.ticks a (k.threads a))
            i (λ le lt. rest.before i (omega arith) ∙ t.state)
            (λ a ne le lt.
              rest.state a (omega arith) lt ∙ rw (d.ticks, same_state a ne, same_wakeup a ne) refl);
    }

tick_loop-AllTicked :
    (self n i : ℕ)
    → n + i ≡ thread_max
    → {k : Kernel} {q : ℕ → List ℕ} {own : ℕ → Tid} → Inv k q own
    → k.boot_hartid < max_harts
    → (k' : Kernel) × (tick_loop self n i k ≡ done tt k') × AllTicked i q k k'
unfolding tick_loop
tick_loop-AllTicked self zero i e {k} {q} {own} v lt = (
  k,
  refl,
  record {
    grown = record { q' = q; own' = own; inv = v; place = λ h j p. p };
    slices = λ h. refl;
    harts = λ h. SameHart-refl;
    boot = refl;
    ticks = refl;
    before = λ a l. refl;
    state = λ a le l. absurd (omega arith);
  },
)
tick_loop-AllTicked self (suc n) i e {k} {q} {own} v lt =
    let (k1, run, t) = tick_slot-Ticked self i (omega arith) v lt in
    let (k2, rest, all) =
      tick_loop-AllTicked self n (suc i) (omega arith) t.grown.inv (rw t.delivered.boot lt) in
    (k2, rw (run, rest), tick_loop-step i q k k1 k2 t all)

-- The kernel with the next tick.
abbrev pub next_tick : Kernel → Kernel
next_tick k = record k { ticks = (k.ticks + 1) % 2 ^ 64 }

pub threads_tick-AllTicked :
    (self : ℕ) {k : Kernel} {q : ℕ → List ℕ} {own : ℕ → Tid}
    → Inv k q own
    → k.boot_hartid < max_harts
    → (k' : Kernel) × (threads_tick self k ≡ done tt k') × AllTicked 0 q (next_tick k) k'
unfolding threads_tick
threads_tick-AllTicked self {k} {q} {own} v lt =
    tick_loop-AllTicked self thread_max 0 refl
      (Inv-cpus k (next_tick k) q own v refl refl (λ h. SameHart-refl)) lt

-- A tick wakes exactly the threads, idle ones aside, that sleep until it or until an earlier one: they
-- are RUNNABLE, all other threads keep their state, no hart changes what it runs, and the kernel stays sound. It
-- does not panic.
pub threads_tick-wakes :
    (self : ℕ) {k : Kernel}
    → IsSound k
    → k.boot_hartid < max_harts
    → let now = (k.ticks + 1) % 2 ^ 64 in
      (k' : Kernel) × (threads_tick self k ≡ done tt k')
      × IsSound k'
      × (k'.ticks ≡ now)
      × ((h : ℕ) → SameHart (k.cpus h) (k'.cpus h))
      × ((t : ℕ) → t < thread_max → (k'.threads t).state ≡ state_after_tick now t (k.threads t))
threads_tick-wakes self {k} (q, own, v) lt =
    let (k', run, all) = threads_tick-AllTicked self v lt in
    (
      k',
      run,
      (all.grown.q', all.grown.own', all.grown.inv),
      all.ticks,
      all.harts,
      λ t fits. all.state t (omega arith) fits,
    )

-- Waking a thread that is BLOCKED, or trying to wake any other, does not panic and keeps the kernel
-- sound; no hart changes what it runs.
pub thread_wake-IsSound :
    (self : ℕ) (target : Tid) {k : Kernel}
    → IsSound k
    → self < max_harts
    → (k' : Kernel) × (thread_wake self target k ≡ done tt k')
      × IsSound k'
      × ((h : ℕ) → SameHart (k.cpus h) (k'.cpus h))
unfolding thread_wake
thread_wake-IsSound self none {k} sound lt = (k, refl, sound, λ h. SameHart-refl)
thread_wake-IsSound self (some t) {k} (q, own, v) lt =
    elim (Bool-cases (leb thread_max t || not (in_state (k.threads t).state blocked))) [
      | inl e ↦ (k, ground arith, (q, own, v), λ h. SameHart-refl)
      | inr e ↦
          let fits : leb thread_max t ≡ false = ground arith in
          let asleep : in_state (k.threads t).state blocked ≡ true = ground arith in
          let (k', run, sound, d) =
            thread_make_runnable-IsSound self t (k.threads t) (cpu_current_hartid self k) v
              (record { state = refl; on_rq = refl; running_hart = refl; rq_next = refl })
              (rw (v.harts self lt).hartid lt) (λ z. absurd (ground arith)) in
          (k', rw (fits, asleep) (rw (set_thread_self t k) at run), sound, d.harts)
    ]
