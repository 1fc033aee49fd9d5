-- ===== src/Monitor/Slots.antt =====
-- The slots of the monitors of user/monitor.c.
use ccos.Common.{
  ℕ, ◌<◌, ◌≡◌, refl, sym, true, false, not, ◌&&◌, Option, arith, ◌==◌, if◌then◌else◌, ℤ, ==_refl,
  split_at, first_from, IsFound, none_passes, first_passes, first_from-IsFound,
}
use ccos.Kernel.{update}
use ccos.Monitor.{
  mon_max, MonCtx, no_tid, same_int, fresh_mon, mon_alloc, mon_find_by_tid, start_mon, mon_start_ex,
  mon_stop,
}
use mathlib.Core.Path.{subst}

-- The monitor that a start leaves in its slot.
abbrev pub started : (period : ℕ) (count : ℤ) (flags : ℕ) (created : ℤ) → MonCtx
started period count flags created = record {
  used = true;
  tid = created;
  seq = 0;
  period = if period == 0 then 1 else period;
  remaining = count;
  flags = flags;
}

-- The outcomes of a start: no free slot, no thread, or a monitor in a slot that was free.
pub data IsStarted (period : ℕ) (count : ℤ) (flags : ℕ) (mons : ℕ → MonCtx)
    : ℤ → ℤ × (ℕ → MonCtx) → Type 0 where
  no_slot :
      (created : ℤ)
      → ((j : ℕ) → j < mon_max → (mons j).used ≡ true)
      → IsStarted period count flags mons created (ℤ.negsuc 0, mons)
  no_thread :
      (e i : ℕ)
      → (mons i).used ≡ false
      → IsStarted period count flags mons (ℤ.negsuc e) (
        ℤ.negsuc e,
        update
            (update mons i fresh_mon)
            i
            (record (started period count flags no_tid) { used = false }),
      )
  runs :
      (tid i : ℕ)
      → i < mon_max
      → (mons i).used ≡ false
      → IsStarted period count flags mons
          (ℤ.pos tid)
          (ℤ.pos tid, update (update mons i fresh_mon) i (started period count flags (ℤ.pos tid)))

start_mon-IsStarted :
    (period : ℕ) (count : ℤ) (flags i : ℕ) (created : ℤ) (mons : ℕ → MonCtx)
    → i < mon_max
    → (mons i).used ≡ false
    → IsStarted period count flags mons created (
        start_mon i
          (if period == 0 then 1 else period)
          count
          flags
          created
          (update mons i fresh_mon))
unfolding start_mon
start_mon-IsStarted period count flags i (ℤ.negsuc e) mons lt free = rw ==_refl (no_thread e i free)
start_mon-IsStarted period count flags i (ℤ.pos tid) mons lt free = rw ==_refl (runs tid i lt free)

-- A start takes the first slot that is free, and says -1 only if there is none or if the thread is refused so;
-- a period of 0 counts as 1.
pub mon_start_ex-IsStarted :
    (period : ℕ) (count : ℤ) (flags : ℕ) (created : ℤ) (mons : ℕ → MonCtx)
    → IsStarted period count flags mons created (mon_start_ex period count flags created mons)
unfolding mon_start_ex mon_alloc
mon_start_ex-IsStarted period count flags created mons =
    go (first_from mon_max 0 λ i. not (mons i).used) refl
      (first_from-IsFound mon_max 0 λ i. not (mons i).used)
  where
    go :
        (o : Option ℕ)
        → (first_from mon_max 0 λ i. not (mons i).used) ≡ o
        → IsFound mon_max 0 (λ i. not (mons i).used) o
        → IsStarted period count flags mons created (mon_start_ex period count flags created mons)
    go _ e (none_passes all) =
        rw (mon_start_ex, e)
          (no_slot created (λ j lt. ground (arith, all j (omega arith) (omega arith))))
    go _ e (first_passes w low high hit before) =
        rw (mon_start_ex, e)
          (start_mon-IsStarted period count flags w created mons (omega arith)
            (ground (arith, hit)))

same_int_refl : (z : ℤ) → same_int z z ≡ true
same_int_refl (ℤ.pos n) = ==_refl n
same_int_refl (ℤ.negsuc n) = ==_refl n

-- What a stop does to the slots.
data IsStopped (tid : ℤ) (mons : ℕ → MonCtx) : (ℕ → MonCtx) → Type 0 where
  unknown :
      ((j : ℕ) → j < mon_max → ((mons j).used && same_int (mons j).tid tid) ≡ false)
      → IsStopped tid mons mons
  freed :
      (i : ℕ)
      → i < mon_max
      → ((mons i).used && same_int (mons i).tid tid) ≡ true
      → IsStopped tid mons (update mons i (record (mons i) { used = false; tid = no_tid }))

mon_stop-IsStopped :
    (tid kill join : ℤ) (mons : ℕ → MonCtx) → IsStopped tid mons (mon_stop tid kill join mons).1
unfolding mon_stop mon_find_by_tid
mon_stop-IsStopped tid kill join mons =
    go (first_from mon_max 0 λ i. (mons i).used && same_int (mons i).tid tid) refl
      (first_from-IsFound mon_max 0 λ i. (mons i).used && same_int (mons i).tid tid)
  where
    go :
        (o : Option ℕ)
        → (first_from mon_max 0 λ i. (mons i).used && same_int (mons i).tid tid) ≡ o
        → IsFound mon_max 0 (λ i. (mons i).used && same_int (mons i).tid tid) o
        → IsStopped tid mons (mon_stop tid kill join mons).1
    go _ e (none_passes all) =
        rw (mon_stop, e) (unknown (λ j lt. all j (omega arith) (omega arith)))
    go _ e (first_passes w low high hit before) = rw (mon_stop, e) (freed w (omega arith) hit)

-- No monitor has the thread.
abbrev pub IsUnmonitored : ℤ → (ℕ → MonCtx) → Type 0
IsUnmonitored tid mons =
    (j : ℕ) → j < mon_max → (mons j).used ≡ true → same_int (mons j).tid tid ≡ false

stopped-used :
    (tid : ℤ) (mons s : ℕ → MonCtx)
    → IsUnmonitored tid mons
    → IsStopped tid mons s
    → (j : ℕ) → (s j).used ≡ (mons j).used
stopped-used tid mons _ new (unknown none_has) j = refl
stopped-used tid mons _ new (freed i lt hit) j = absurd (ground (arith, new i lt))

-- In the slot `i` a monitor has just been started.
restarted-used :
    (i : ℕ) (m : MonCtx) (tid : ℤ) (mons s : ℕ → MonCtx)
    → i < mon_max
    → (mons i).used ≡ false
    → m.used ≡ true
    → m.tid ≡ tid
    → IsUnmonitored tid mons
    → IsStopped tid (update (update mons i fresh_mon) i m) s
    → (j : ℕ) → (s j).used ≡ (mons j).used
restarted-used i m tid mons _ small free up is_tid new (unknown none_has) j =
    absurd (ground (arith, none_has i small, is_tid, same_int_refl tid))
restarted-used i m tid mons _ small free up is_tid new (freed w lt hit) j =
    let here : w ≡ i = ground (arith, new w lt) in
    subst
      (λ v.
        (update (update (update mons i fresh_mon) i m) v
          (record (update (update mons i fresh_mon) i m v) { used = false; tid = no_tid }) j).used
        ≡ (mons j).used)
      (sym here)
      (split_at
        (λ b.
          (update (update (update mons i fresh_mon) i m) i
            (record (update (update mons i fresh_mon) i m i) { used = false; tid = no_tid }) b).used
          ≡ (mons b).used)
        i (rw ==_refl (sym free)) (λ b ne. ground arith) j)

-- Starting a monitor, whose thread is not that of another monitor, and stopping it leaves in use just the
-- slots that were in use before, whatever the calls of the kernel answer.
pub mon_start_ex-mon_stop :
    (period : ℕ) (count : ℤ) (flags tid : ℕ) (kill join : ℤ) (mons : ℕ → MonCtx)
    → IsUnmonitored (ℤ.pos tid) mons
    → let s = (mon_start_ex period count flags (ℤ.pos tid) mons).1 in
      (j : ℕ) → ((mon_stop (ℤ.pos tid) kill join s).1 j).used ≡ (mons j).used
mon_start_ex-mon_stop period count flags tid kill join mons new =
    go _ (mon_start_ex-IsStarted period count flags (ℤ.pos tid) mons)
  where
    go :
        (r : ℤ × (ℕ → MonCtx))
        → IsStarted period count flags mons (ℤ.pos tid) r
        → (j : ℕ) → ((mon_stop (ℤ.pos tid) kill join r.1).1 j).used ≡ (mons j).used
    go _ (no_slot _ full) =
        stopped-used (ℤ.pos tid) mons _ new (mon_stop-IsStopped (ℤ.pos tid) kill join mons)
    go _ (runs _ i small free) =
        restarted-used i (started period count flags (ℤ.pos tid)) (ℤ.pos tid) mons _ small free refl
          refl new (mon_stop-IsStopped (ℤ.pos tid) kill join _)
