-- ===== src/Thread/Init/Table.antt =====
-- The thread table that `threads_init` of kernel/thread.c lays out.
use ccos.Common.{
  ℕ, zero, suc, ◌+◌, ◌≡◌, refl, ap, ◌∙◌, true, ◌&&◌, arith, ltb, leb, if◌then◌else◌, false, [],
  none,
}
use ccos.Kernel.{thread_max, max_harts, Thread, Kernel, Machine, set_thread}
use ccos.Runqueue.{rq_init_all}
use ccos.Runqueue.Snapshot.{rq_init_all-others, rq_init_all-empty}
use ccos.Thread.Init.{idle_table, blank_loop, idle_loop, blank, idle_thread}
use ccos.Runqueue.Links.{Queues}

-- What is left of a kernel when its thread table is forgotten.
abbrev pub with_threads : (ℕ → Thread) → Kernel → Kernel
with_threads ts k = record k { threads = ts }

blank_loop-threads :
    (n i a : ℕ) (k : Kernel)
    → (blank_loop n i k).threads a
      ≡ (if leb i a && ltb a (i + n) then blank a (k.threads a) else k.threads a)
unfolding blank_loop
blank_loop-threads zero i a k = ground arith
blank_loop-threads (suc n) i a k =
    ground (arith, blank_loop-threads n (suc i) a (set_thread i (blank i (k.threads i)) k))

blank_loop-others : (n i : ℕ) (k : Kernel) → with_threads k.threads (blank_loop n i k) ≡ k
unfolding blank_loop
blank_loop-others zero i k = refl
blank_loop-others (suc n) i k =
    ap (with_threads k.threads)
      (blank_loop-others n (suc i) (set_thread i (blank i (k.threads i)) k))

idle_loop-threads :
    (m : Machine) (n i a : ℕ) (k : Kernel)
    → (idle_loop m n i k).threads a
      ≡ (if leb i a && ltb a (i + n) then idle_thread m a (k.threads a) else k.threads a)
unfolding idle_loop
idle_loop-threads m zero i a k = ground arith
idle_loop-threads m (suc n) i a k =
    ground (arith, idle_loop-threads m n (suc i) a (set_thread i (idle_thread m i (k.threads i)) k))

idle_loop-others :
    (m : Machine) (n i : ℕ) (k : Kernel) → with_threads k.threads (idle_loop m n i k) ≡ k
unfolding idle_loop
idle_loop-others m zero i k = refl
idle_loop-others m (suc n) i k =
    ap (with_threads k.threads)
      (idle_loop-others m n (suc i) (set_thread i (idle_thread m i (k.threads i)) k))

-- A thread of the table, where `t` is what .bss holds.
abbrev pub table_entry : Machine → ℕ → Thread → Thread
table_entry m a t =
    let u = if ltb a thread_max then blank a t else t in
    if ltb a max_harts then idle_thread m a u else u

module _ (m : Machine) (k : Kernel) where
  abbrev blanked : Kernel
  blanked = blank_loop thread_max 0 (record k { ticks = 0 })

  pub idle_table-threads : (a : ℕ) → (idle_table m k).threads a ≡ table_entry m a (k.threads a)
  unfolding idle_table
  idle_table-threads a =
      let below : leb 0 a ≡ true = ground arith in
      let queues = ap (λ l. l.threads a) (rq_init_all-others blanked) in
      let blanks = blank_loop-threads thread_max 0 a (record k { ticks = 0 }) in
      idle_loop-threads m max_harts 0 a (rq_init_all blanked) ∙ rw (queues, blanks, below) refl

  blanked-cpus : blanked.cpus ≡ k.cpus
  blanked-cpus = ap (λ l. l.cpus) (blank_loop-others thread_max 0 (record k { ticks = 0 }))

  pub idle_table-cpus : (idle_table m k).cpus ≡ k.cpus
  unfolding idle_table
  idle_table-cpus =
      ap (λ l. l.cpus) (idle_loop-others m max_harts 0 (rq_init_all blanked))
      ∙ ap (λ l. l.cpus) (rq_init_all-others blanked)
      ∙ blanked-cpus

  -- Every queue is empty, since no thread is marked as queued.
  pub idle_table-Queues :
      ((t : ℕ) → ((idle_table m k).threads t).on_rq ≡ false)
      → Queues (idle_table m k) (λ _. []) (λ _. none)
  unfolding idle_table
  idle_table-Queues clear = record {
    each = λ h lt.
        let rqs = ap (λ l. l.runqueues) (idle_loop-others m max_harts 0 (rq_init_all blanked)) in
        let empty = rq_init_all-empty blanked h lt in
        record {
          links = ground (arith, rqs, empty);
          tail = ground (arith, rqs, empty);
          len = ground (arith, rqs, empty);
          distinct = tt;
        };
    member = λ h t lt. refl;
    flagged = λ t. clear t;
    owned = λ t h e. absurd (ground arith);
  }
