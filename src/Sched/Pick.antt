-- ===== src/Sched/Pick.antt =====
-- What `sched_pick_target_hart` of kernel/sched.c chooses.
use ccos.Common.{ℕ, zero, suc, ◌+◌, ◌≤◌, ◌<◌, ◌≡◌, refl, ap, ◌⊎◌, inl, true, false, arith}
use ccos.Kernel.{max_harts, Kernel}
use ccos.Runqueue.{rq_len}
use ccos.Sched.{Best, consider, sched_pick_target_hart, pick_loop}
use native.Mathlib.Nat.{add-zero}

-- What the loop knows after the harts below `i`, having started from `waker`.
record Holds (k : Kernel) (waker i : ℕ) (best : Best) : Type 0 where
  len : best.len ≡ rq_len best.hart k
  online : best.online ≡ (k.cpus best.hart).online
  shortest :
      (g : ℕ) → g < i → (k.cpus g).online ≡ true → (best.online ≡ true) × (best.len ≤ rq_len g k)
  moved :
      (best.hart ≡ waker)
      ⊎ ((best.hart < max_harts) × (((k.cpus waker).online ≡ false) ⊎ (best.len < rq_len waker k)))
  waiting : (k.cpus waker).online ≡ true → (best.online ≡ true) × (best.len ≤ rq_len waker k)

consider-Holds :
    (k : Kernel) (waker i : ℕ) (best : Best)
    → i < max_harts
    → Holds k waker i best
    → Holds k waker (suc i) (consider k i best)
unfolding consider
consider-Holds k waker i best lt s = record {
  len = ground (arith, s.len);
  online = ground (arith, s.online);
  shortest = λ g small up. ground (
    arith,
    s.shortest g,
    ap (λ j. rq_len j k) {x = g} {y = i},
    ap (λ j. (k.cpus j).online) {x = g} {y = i},
  );
  moved = ground (arith, s.moved, s.waiting);
  waiting = ground (arith, s.waiting);
}

pick_loop-Holds :
    (k : Kernel) (waker n i : ℕ) (best : Best)
    → i + n ≤ max_harts
    → Holds k waker i best
    → Holds k waker (i + n) (pick_loop k n i best)
unfolding pick_loop
pick_loop-Holds k waker zero i best fits s = rw add-zero s
pick_loop-Holds k waker (suc n) i best fits s =
    let e : i + suc n ≡ suc i + n = omega arith in
    rw e (
      pick_loop-Holds k waker n (suc i) (consider k i best) (omega arith)
        (consider-Holds k waker i best (omega arith) s))

module _ (k : Kernel) (waker : ℕ) where
  picked :
      (best : Best) × (sched_pick_target_hart waker k ≡ best.hart) × Holds k waker max_harts best
  unfolding sched_pick_target_hart
  picked =
      let start : Best = record {
        hart = waker;
        len = rq_len waker k;
        online = (k.cpus waker).online;
      } in
      (
        pick_loop k max_harts 0 start,
        refl,
        pick_loop-Holds k waker max_harts 0 start (omega arith) (record {
          len = refl;
          online = refl;
          shortest = λ g lt up. absurd (omega arith);
          moved = inl refl;
          waiting = λ up. (up, omega arith);
        }),
      )

  -- If any hart is online, the chosen hart is online and its queue is no longer than that of any
  -- hart that is online.
  pub sched_pick_target_hart-shortest :
      (g : ℕ)
      → g < max_harts
      → (k.cpus g).online ≡ true
      → ((k.cpus (sched_pick_target_hart waker k)).online ≡ true)
        × (rq_len (sched_pick_target_hart waker k) k ≤ rq_len g k)
  sched_pick_target_hart-shortest g lt up =
      let (best, e, s) = picked in rw e (ground (arith, s.shortest g lt up, s.len, s.online))

  -- The waker is kept unless it is offline or the chosen queue is strictly shorter than its own.
  pub sched_pick_target_hart-keeps :
      (sched_pick_target_hart waker k ≡ waker)
      ⊎ ((sched_pick_target_hart waker k < max_harts)
          × (((k.cpus waker).online ≡ false)
              ⊎ (rq_len (sched_pick_target_hart waker k) k < rq_len waker k)))
  sched_pick_target_hart-keeps = let (best, e, s) = picked in rw e (ground (arith, s.moved, s.len))

  pub sched_pick_target_hart-lt : waker < max_harts → sched_pick_target_hart waker k < max_harts
  sched_pick_target_hart-lt lt = ground (arith, sched_pick_target_hart-keeps)
