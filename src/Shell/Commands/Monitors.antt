-- ===== src/Shell/Commands/Monitors.antt =====
-- The command `mon` of user/shell.c, which starts and stops the monitors of user/monitor.c.
use ccos.Common.{ℕ, ◌<◌, ◌≡◌, refl, true, Option, some, List, [], ◌∷◌, arith, codes, ℤ, ◌^◌}
use ccos.Number.{u_itoa, u_atol, u_atoi, int_of}
use ccos.Number.Digits.{u_itoa-u_atol}
use ccos.Thread.Info.{UThreadInfo}
use ccos.Monitor.{MonCtx, mon_start_ex, mon_stop}
use ccos.Monitor.Slots.{IsUnmonitored, mon_start_ex-mon_stop}
use ccos.Shell.Commands.{same_text, mon_count, start_args, stop_args, cmd_mon}

-- A thread's number is read back from its text.
int_of-u_atoi :
    (tid : ℕ) (q : List ℕ) → tid < 2 ^ 31 → u_atol q ≡ tid → int_of (u_atoi q) ≡ ℤ.pos tid
unfolding u_atoi
int_of-u_atoi tid q fits e = rw e (ground arith)

module _ (infos : Option (List UThreadInfo)) (kill join : ℤ → ℤ) where
  -- `mon start period [count]`
  cmd_mon-start :
      (created : ℤ) (period : List ℕ) (args : List (List ℕ)) (mons : ℕ → MonCtx)
      → (cmd_mon infos created kill join (codes "mon" ∷ codes "start" ∷ period ∷ args) mons).1
        ≡ (mon_start_ex (u_atoi period) (mon_count args) 0 created mons).1
  unfolding cmd_mon same_text start_args
  cmd_mon-start created period args mons = refl

  -- `mon stop tid`
  cmd_mon-stop :
      (created : ℤ) (q : List ℕ) (mons : ℕ → MonCtx)
      → (cmd_mon infos created kill join (codes "mon" ∷ codes "stop" ∷ q ∷ []) mons).1
        ≡ (mon_stop
            (int_of (u_atoi q))
            (kill (int_of (u_atoi q)))
            (join (int_of (u_atoi q)))
            mons).1
  unfolding cmd_mon same_text stop_args
  cmd_mon-stop created q mons = refl

  -- `mon start`, and then `mon stop` with the number that it answers, printed in decimal, leave in use just
  -- the slots that were in use before, if the new thread is not that of another monitor.
  pub cmd_mon-cmd_mon :
      (tid : ℕ) (other : ℤ) (period : List ℕ) (args : List (List ℕ)) (mons : ℕ → MonCtx)
      → tid < 2 ^ 31
      → IsUnmonitored (ℤ.pos tid) mons
      → let begun = codes "mon" ∷ codes "start" ∷ period ∷ args in
        let running = (cmd_mon infos (ℤ.pos tid) kill join begun mons).1 in
        (q : List ℕ) × (u_itoa 64 tid 10 true ≡ some q)
        × ((j : ℕ)
            → ((cmd_mon infos other kill join (codes "mon" ∷ codes "stop" ∷ q ∷ []) running).1
                j).used
              ≡ (mons j).used)
  cmd_mon-cmd_mon tid other period args mons fits new =
      let (q, (printed, (short, back))) = u_itoa-u_atol tid true (omega arith) in
      let number = int_of-u_atoi tid q fits back in
      (
        q,
        printed,
        λ j.
            rw (cmd_mon-stop, cmd_mon-start, number)
              (mon_start_ex-mon_stop (u_atoi period) (mon_count args) 0 tid (kill (ℤ.pos tid))
                (join (ℤ.pos tid)) mons new j),
      )
