-- ===== src/Thread/Syscalls/Exit/Revive.antt =====
-- The release of a joiner in kernel/thread.c does not ask whether the joiner still waits.
use ccos.Common.{ℕ, ◌≤◌, ◌<◌, ◌≡◌, sym, ◌≢◌, true, none, some, List, arith, ℤ}
use ccos.Kernel.{thread_max, max_harts, Tid, runnable, zombie, Kernel}
use ccos.Kernel.Run.{done}
use ccos.Thread.{at_rest}
use ccos.Thread.Syscalls.{store_int, release_joiner}
use ccos.Thread.Invariant.{Inv, IsSound, IsAway}
use ccos.Thread.Frame.{SameHart, SameHart-refl, Inv-cpus}
use ccos.Thread.Runnable.{thread_make_runnable-Inv}
use ccos.Thread.Recycle.{at_rest_of_zombie}
use mathlib.Core.Path.{subst}

-- In a kernel in which the invariant holds, releasing a joiner that is dead, is not idle and is on no
-- hart makes it RUNNABLE and queues it, and the invariant holds again: such a joiner was killed while
-- it waited.
pub release_joiner-revives :
    (self j : ℕ) (code : ℤ) {k : Kernel} {q : ℕ → List ℕ} {own : ℕ → Tid}
    → Inv k q own
    → self < max_harts
    → max_harts ≤ j
    → j < thread_max
    → (k.threads j).state ≡ zombie
    → IsAway k j
    → (k' : Kernel) × (release_joiner self j code k ≡ done tt k')
      × ((k'.threads j).state ≡ runnable)
      × ((k'.threads j).on_rq ≡ true)
      × IsSound k'
unfolding release_joiner
release_joiner-revives self j code {k} {q} {own} v lt real fits dead away =
    let stored = store_int (k.threads j).join_status_ptr code k in
    let ts : stored.threads ≡ k.threads = ground arith in
    let cpus : stored.cpus ≡ k.cpus = ground arith in
    let v' : Inv stored q own =
      Inv-cpus k stored q own v ts (ground arith)
        (λ h. subst (λ c. SameHart (k.cpus h) (c h)) (sym cpus) SameHart-refl) in
    let w = stored.threads j in
    let rest : at_rest w ≡ true = ground (arith, at_rest_of_zombie j v dead away, ts) in
    let (k', run, inv, d) =
      thread_make_runnable-Inv self j
        (record w { tf = record w.tf { a0 = 0 }; waiting_for = none; join_status_ptr = 0 }) v' real
        fits (ground (arith, v'.queues.flagged j))
        (subst (λ c. (h : ℕ) → h < max_harts → (c h).current_tid ≢ some j) (sym cpus) away)
        (ground arith) (ground arith) (λ e. ground (arith, ts)) (stored.cpus self).hartid
        (rw (v'.harts self lt).hartid lt) in
    (
      k',
      run,
      (inv.ready j).runnable_of_queued (ground arith),
      ground (arith, inv.queues.flagged j),
      (_, _, inv),
    )
