-- ===== src/Monitor/Reports.antt =====
-- How often a monitor of user/monitor.c reports.
use ccos.Common.{
  ℕ, zero, suc, ◌≡◌, refl, sym, ap, ◌∙◌, Bool, true, false, not, Option, none, some, List, [], ◌∷◌,
  arith, ltb, if◌then◌else◌, ℤ, length,
}
use ccos.Thread.Info.{UThreadInfo}
use ccos.Monitor.{MonCtx, count_from, count_down, print_report, Monitored, monitor_main}
use mathlib.Core.Path.{subst}

-- The reports that a count allows in `n` rounds: a count of 0 is no limit, as if it were negative.
abbrev pub rounds_of : (count : ℤ) (n : ℕ) → ℕ
rounds_of (ℤ.negsuc c) n = n
rounds_of (ℤ.pos zero) n = n
rounds_of (ℤ.pos (suc c)) n = if ltb c n then suc c else n

-- A count that has been used up: the thread exits.
abbrev pub is_over : (count : ℤ) (n : ℕ) → Bool
is_over (ℤ.negsuc c) n = false
is_over (ℤ.pos zero) n = false
is_over (ℤ.pos (suc c)) n = ltb c n

-- What a monitor that was in use has done in `n` rounds.
pub record Reported (count : ℤ) (n : ℕ) (r : Monitored) : Type 0 where
  rounds : length r.reports ≡ rounds_of count n
  over : r.exited ≡ is_over count n
  slot : r.ctx.used ≡ not (is_over count n)

print_report-same :
    (listed : Option (List UThreadInfo)) (m : MonCtx)
    → ((print_report listed m).1.used ≡ m.used)
      × ((print_report listed m).1.remaining ≡ m.remaining)
unfolding print_report
print_report-same none m = (refl, refl)
print_report-same (some infos) m = (refl, refl)

-- What a round makes of the count.
data CountsDown : ℤ → Bool × MonCtx → Type 0 where
  for_ever :
      (n : ℕ) (m : MonCtx)
      → m.used ≡ true
      → m.remaining ≡ ℤ.negsuc n
      → CountsDown (ℤ.negsuc n) (false, m)
  no_limit :
      (n : ℕ) (m : MonCtx)
      → m.used ≡ true
      → m.remaining ≡ ℤ.negsuc n
      → CountsDown (ℤ.pos 0) (false, m)
  last : (m : MonCtx) → m.used ≡ false → CountsDown (ℤ.pos 1) (true, m)
  more :
      (n : ℕ) (m : MonCtx)
      → m.used ≡ true
      → m.remaining ≡ ℤ.pos (suc n)
      → CountsDown (ℤ.pos (suc (suc n))) (false, m)

count_from-CountsDown :
    (r : ℤ) (m : MonCtx) → m.remaining ≡ r → m.used ≡ true → CountsDown r (count_from r m)
unfolding count_from
count_from-CountsDown (ℤ.negsuc n) m e up = for_ever n m up e
count_from-CountsDown (ℤ.pos zero) m e up = no_limit 0 _ up refl
count_from-CountsDown (ℤ.pos (suc zero)) m e up = last _ refl
count_from-CountsDown (ℤ.pos (suc (suc n))) m e up = more n _ up refl

-- A round, and the later ones.
Reported-step :
    (r : ℤ) (n : ℕ) (report : List UThreadInfo) (out : Bool × MonCtx) (rest : Monitored)
    → CountsDown r out
    → ((out.1).used ≡ true → Reported (out.1).remaining n rest)
    → Reported r (suc n) (
        if out.0
        then record { reports = report ∷ []; exited = true; ctx = out.1 }
        else record rest { reports = report ∷ rest.reports })
Reported-step _ n report _ rest (for_ever c m up e) later =
    let v = rw e at (later up) in record { rounds = ap suc v.rounds; over = v.over; slot = v.slot }
Reported-step _ n report _ rest (no_limit c m up e) later =
    let v = rw e at (later up) in record { rounds = ap suc v.rounds; over = v.over; slot = v.slot }
Reported-step _ n report _ rest (last m gone) later = record {
  rounds = ground arith;
  over = ground arith;
  slot = ground arith;
}
Reported-step _ n report _ rest (more c m up e) later =
    let v = rw e at (later up) in
    record {
      rounds = ground (arith, v.rounds);
      over = ground (arith, v.over);
      slot = ground (arith, v.slot);
    }

none_yet : (r : ℤ) → (rounds_of r 0 ≡ 0) × (is_over r 0 ≡ false)
none_yet (ℤ.negsuc c) = (refl, refl)
none_yet (ℤ.pos zero) = (refl, refl)
none_yet (ℤ.pos (suc c)) = ground arith

-- A monitor that is started with a count of at least 1, and is woken as often, reports exactly so many
-- times, releases its slot and exits; with a count of 0 or below it reports whenever it is woken and stays
-- until it is stopped. With fewer wake-ups than its count it has reported each time and goes on.
pub monitor_main-Reported :
    (ls : List (Option (List UThreadInfo))) (m : MonCtx)
    → m.used ≡ true
    → Reported m.remaining (length ls) (monitor_main ls m)
unfolding monitor_main
monitor_main-Reported [] m up =
    let (rounds, over) = none_yet m.remaining in
    record { rounds = sym rounds; over = rw (up, over) refl; slot = rw (up, over) refl }
monitor_main-Reported (listed ∷ ls) m up =
    let (same_used, same_count) = print_report-same listed m in
    let out = count_down (print_report listed m).1 in
    simp up (
      Reported-step m.remaining (length ls) (print_report listed m).0 out _
        (subst (λ r. CountsDown m.remaining (count_from r (print_report listed m).1))
          (sym same_count)
          (subst (λ r. CountsDown r (count_from r (print_report listed m).1)) same_count
            (count_from-CountsDown (print_report listed m).1.remaining (print_report listed m).1
              refl (same_used ∙ up))))
        (λ up'. monitor_main-Reported ls out.1 up'))
