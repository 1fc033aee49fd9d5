-- ===== src/Thread/Irq/Turns.antt =====
-- Round robin: the time slices of kernel/sched.c let every queued thread of a hart run in its turn.
use ccos.Common.{
  ℕ, zero, suc, ◌+◌, ◌-◌, ◌<◌, ◌≡◌, refl, ap, ◌∙◌, inl, inr, true, false, not, ◌&&◌, some, List, [],
  ◌∷◌, arith, ltb, ◌==◌, Bool-cases, get_elem?, get_elem?-append, ◌%◌, ◌^◌, ◌*◌,
}
use ccos.Kernel.{
  max_harts, sched_slice_ticks, Tid, running, in_state, frame_of, Cpu, Kernel, update, set_cpu,
  TfPtr,
}
use ccos.Kernel.Run.{done, Cmd, and_then}
use ccos.Thread.Irq.{end_slice, sched_on_timer_irq}
use ccos.Thread.Invariant.{Inv, Inv-Leaving}
use ccos.Thread.Frame.{SameHart}
use ccos.Thread.Irq.Sound.{edit_cpu-Inv}
use ccos.Thread.Switch.Schedule.{first_or, rest_of, queue_after, schedule-turn}
use ccos.Thread.Switch.Tick.{threads_tick-AllTicked}
use ccos.Thread.Switch.{threads_tick}

-- `n` timer interrupts of the hart, one behind the other.
unfoldable pub timers : (self n : ℕ) → Cmd (Unit {0})
timers self zero k = done tt k
timers self (suc n) k =
    let rest = timers self n in and_then (sched_on_timer_irq self (k.cpus self).cur_tf k) λ _. rest

-- The thread `t` stands at place `n` of the queue of the boot hart, which runs `cur`.
pub record Waits (self t n cur : ℕ) (k : Kernel) : Type 0 where
  pub q : ℕ → List ℕ
  pub own : ℕ → Tid
  pub inv : Inv k q own
  pub now : (k.cpus self).current_tid ≡ some cur
  pub place : get_elem? (q self) n ≡ some t
  pub boot : k.boot_hartid ≡ self

queue_after-place :
    (k : Kernel) (self cur n : ℕ) (xs : List ℕ) {t : ℕ}
    → get_elem? xs n ≡ some t
    → get_elem? (queue_after k self cur xs) n ≡ some t
queue_after-place k self cur n xs e =
    elim (Bool-cases (not (ltb cur max_harts) && in_state (k.threads cur).state running)) [
      | inl back ↦ rw back (get_elem?-append xs (cur ∷ []) n e)
      | inr stays ↦ rw stays e
    ]

first_of_place : (d : ℕ) (xs : List ℕ) {t : ℕ} → get_elem? xs 0 ≡ some t → first_or d xs ≡ t
first_of_place d [] e = absurd (ground arith)
first_of_place d (x ∷ xs) e = ground arith

rest_of-place : (xs : List ℕ) (n : ℕ) → get_elem? (rest_of xs) n ≡ get_elem? xs (suc n)
rest_of-place [] n = refl
rest_of-place (x ∷ xs) n = refl

-- The interrupt is counted, and takes a tick of the slice.
abbrev irq_counted : Cpu → Cpu
irq_counted c = record c { timer_irqs = (c.timer_irqs + 1) % 2 ^ 64 }

abbrev tick_counted : Cpu → Cpu
tick_counted c = record c { slice_left = c.slice_left - 1 }

abbrev renewed : Cpu → Cpu
renewed c = record c { slice_left = sched_slice_ticks; need_resched = false }

module _ (self t : ℕ) (lt : self < max_harts) where
  -- A write to the hart that its invariant does not read.
  edit_cpu-Waits :
      (n cur : ℕ) (f : Cpu → Cpu) (k : Kernel)
      → ((c : Cpu) → SameHart c (f c))
      → Waits self t n cur k
      → Waits self t n cur (set_cpu self (f (k.cpus self)) k)
  edit_cpu-Waits n cur f k s w = record {
    q = w.q;
    own = w.own;
    inv = edit_cpu-Inv self (f (k.cpus self)) k w.inv (s (k.cpus self));
    now = ground (arith, w.now, (s (k.cpus self)).current);
    place = w.place;
    boot = w.boot;
  }

  -- The tick of the boot hart has led to `l`.
  timer-ticked :
      (tf : TfPtr) (k l : Kernel)
      → ((k.cpus self).hartid == k.boot_hartid) ≡ true
      → threads_tick self (set_cpu self (irq_counted (k.cpus self)) k) ≡ done tt l
      → sched_on_timer_irq self tf k
        ≡ end_slice self tf (set_cpu self (tick_counted (l.cpus self)) l)
  unfolding sched_on_timer_irq
  timer-ticked tf k l on tick =
      let same_hart : ((set_cpu self (irq_counted (k.cpus self)) k).cpus self).hartid
          ≡ (k.cpus self).hartid =
        ground arith in
      rw (same_hart, on, tick) refl

  -- The interrupt up to the test of the slice, the tick included, which may add threads to the queues.
  timer-counted :
      (n cur : ℕ) (k : Kernel)
      → Waits self t n cur k
      → (l : Kernel) × (sched_on_timer_irq self (k.cpus self).cur_tf k
          ≡ end_slice self (frame_of cur) l)
        × Waits self t n cur l
        × ((l.cpus self).slice_left ≡ (k.cpus self).slice_left - 1)
  timer-counted n cur k w =
      let k1 = set_cpu self (irq_counted (k.cpus self)) k in
      let w1 =
        edit_cpu-Waits n cur irq_counted k
          (λ c. record { hartid = refl; current = refl; idle = refl; cur_tf = refl }) w in
      let (k2, tick, all) = threads_tick-AllTicked self w1.inv (rw w.boot lt) in
      let w2 : Waits self t n cur k2 = record {
        q = all.grown.q';
        own = all.grown.own';
        inv = all.grown.inv;
        now = (all.harts self).current ∙ w1.now;
        place = all.grown.place self n w1.place;
        boot = all.boot ∙ w.boot;
      } in
      let on : ((k.cpus self).hartid == k.boot_hartid) ≡ true =
        ground (arith, (w.inv.harts self lt).hartid, w.boot) in
      (
        set_cpu self (tick_counted (k2.cpus self)) k2,
        ap (λ tf. sched_on_timer_irq self tf k) (w.inv.current self cur lt w.now).cur_tf
            ∙ timer-ticked (frame_of cur) k k2 on tick,
        edit_cpu-Waits n cur tick_counted k2
            (λ c. record { hartid = refl; current = refl; idle = refl; cur_tf = refl }) w2,
        ground (arith, all.slices self),
      )

  -- Before the end of the slice.
  timer-early :
      (n s cur : ℕ) (k : Kernel)
      → Waits self t n cur k
      → (k.cpus self).slice_left ≡ suc (suc s)
      → (k' : Kernel) × (sched_on_timer_irq self (k.cpus self).cur_tf k ≡ done tt k')
        × Waits self t n cur k'
        × ((k'.cpus self).slice_left ≡ suc s)
  unfolding end_slice
  timer-early n s cur k w e =
      let (l, run, w', slice) = timer-counted n cur k w in
      let left : (l.cpus self).slice_left ≡ suc s = omega (arith, slice, e) in
      let more : ((l.cpus self).slice_left == 0) ≡ false = ground (arith, left) in
      (l, run ∙ rw more refl, w', left)

  -- The end of the slice.
  timer-late :
      (n cur : ℕ) (k : Kernel)
      → Waits self t n cur k
      → (k.cpus self).slice_left ≡ 1
      → (k' : Kernel) × (q : ℕ → List ℕ) × (own' : ℕ → Tid) × (xs : List ℕ) × (sched_on_timer_irq
            self
            (k.cpus self).cur_tf
            k
          ≡ done tt k')
        × ((k'.cpus self).current_tid ≡ some (first_or self xs))
        × Inv k' (update q self (rest_of xs)) own'
        × ((k'.cpus self).slice_left ≡ sched_slice_ticks)
        × (k'.boot_hartid ≡ self)
        × (get_elem? xs n ≡ some t)
  unfolding end_slice
  timer-late n cur k w e =
      let (l, counted, w', left) = timer-counted n cur k w in
      let out : ((l.cpus self).slice_left == 0) ≡ true = ground (arith, left, e) in
      let v =
        edit_cpu-Waits n cur renewed l
          (λ c. record { hartid = refl; current = refl; idle = refl; cur_tf = refl }) w' in
      let m = set_cpu self (renewed (l.cpus self)) l in
      let (k', own', run, next, inv, slice, boot) =
        schedule-turn self cur lt (Inv-Leaving self cur v.inv lt v.now) in
      (
        k',
        v.q,
        own',
        queue_after m self cur (v.q self),
        counted ∙ rw (out, run) refl,
        next,
        inv,
        slice,
        boot ∙ w'.boot,
        queue_after-place m self cur n (v.q self) v.place,
      )

  -- The next thread of the queue has run up: the others are a place further.
  timer-next :
      (n cur : ℕ) (k : Kernel)
      → Waits self t (suc n) cur k
      → (k.cpus self).slice_left ≡ 1
      → (k' : Kernel) × (next : ℕ) × (sched_on_timer_irq self (k.cpus self).cur_tf k ≡ done tt k')
        × Waits self t n next k'
        × ((k'.cpus self).slice_left ≡ sched_slice_ticks)
  timer-next n cur k w e =
      let (k', q, own', xs, run, next, inv, slice, boot, place) = timer-late (suc n) cur k w e in
      (
        k',
        first_or self xs,
        run,
        record {
          q = update q self (rest_of xs);
          own = own';
          inv = inv;
          now = next;
          place = ground (arith, rest_of-place xs n, place);
          boot = boot;
        },
        slice,
      )

  timers-turn :
      (m s n cur : ℕ) (k : Kernel)
      → m ≡ suc s + sched_slice_ticks * n
      → (k.cpus self).slice_left ≡ suc s
      → Waits self t n cur k
      → (k' : Kernel) × (timers self m k ≡ done tt k') × ((k'.cpus self).current_tid ≡ some t)
  unfolding timers
  timers-turn zero s n cur k count slice w = absurd (omega arith)
  timers-turn (suc m) (suc s) n cur k count slice w =
      let (l, run, w', slice') = timer-early n s cur k w slice in
      let (k', rest, now) = timers-turn m s n cur l (omega arith) slice' w' in
      (k', rw (run, rest) refl, now)
  timers-turn (suc m) zero zero cur k count slice w =
      let (k', q, own', xs, run, next, inv, slice', boot, place) = timer-late zero cur k w slice in
      let last : m ≡ 0 = omega arith in
      (k', rw (run, last) refl, next ∙ ap some (first_of_place self xs place))
  timers-turn (suc m) zero (suc n) cur k count slice w =
      let (l, next, run, w', slice') = timer-next n cur k w slice in
      let (k', rest, now) = timers-turn m 4 n next l (omega arith) slice' w' in
      (k', rw (run, rest) refl, now)

-- No starvation on the boot hart, which is the hart whose timer `cpu_enter_idle` starts: the thread at place
-- `n` of its queue (the first is at 0) runs when the slice that has begun and `n` more are used up, that is
-- after `slice_left + 5 * n` timer interrupts, the ticks that wake sleeping threads included, if that hart
-- takes no other trap meanwhile and no other hart changes the kernel.
pub timers-served :
    (self t n cur : ℕ) (k : Kernel)
    → self < max_harts
    → Waits self t n cur k
    → 0 < (k.cpus self).slice_left
    → (k' : Kernel) × (timers self ((k.cpus self).slice_left + sched_slice_ticks * n) k
        ≡ done tt k')
      × ((k'.cpus self).current_tid ≡ some t)
timers-served self t n cur k lt w some_left =
    timers-turn self t lt ((k.cpus self).slice_left + sched_slice_ticks * n)
      ((k.cpus self).slice_left - 1) n cur k (omega arith) (omega arith) w
