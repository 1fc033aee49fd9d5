-- ===== src/Shell/Commands/Asked.antt =====
-- What the commands of user/shell.c ask for.
use ccos.Common.{ℕ, ◌<◌, ◌≢◌, inl, inr, List, [], ◌∷◌, arith, ◌==◌, ℤ, Bool-cases, ◌^◌}
use ccos.Kernel.{exitcode_sigkill}
use ccos.Shell.{shell_atoi}
use ccos.Shell.Commands.{
  Request, usage, refused, sleeps, exits_with, kills, is_not_positive, cmd_sleep, cmd_kill,
}

-- What a command may ask for as the thread `self`.
data IsAsked (self : ℕ) : Request → Type 0 where
  has_usage : IsAsked self usage
  is_refused : IsAsked self refused
  may_sleep : (ticks : ℕ) → 0 < ticks → ticks < 2 ^ 31 → IsAsked self (sleeps ticks)
  may_end : (code : ℤ) → IsAsked self (exits_with code)
  may_kill : (tid : ℕ) (rc : ℤ) → 0 < tid → tid < 2 ^ 31 → tid ≢ self → IsAsked self (kills tid rc)

cmd_sleep-IsAsked : (self : ℕ) (argv : List (List ℕ)) → IsAsked self (cmd_sleep argv)
unfolding cmd_sleep
cmd_sleep-IsAsked self [] = has_usage
cmd_sleep-IsAsked self (name ∷ []) = has_usage
cmd_sleep-IsAsked self (name ∷ arg ∷ args) = elim (Bool-cases (is_not_positive (shell_atoi arg))) [
  | inl bad ↦ rw bad is_refused
  | inr good ↦ rw good (may_sleep (shell_atoi arg) (ground arith) (ground arith))
]

cmd_kill-IsAsked :
    (self : ℕ) (kill : ℕ → ℤ) (argv : List (List ℕ)) → IsAsked self (cmd_kill self kill argv)
unfolding cmd_kill
cmd_kill-IsAsked self kill [] = has_usage
cmd_kill-IsAsked self kill (name ∷ []) = has_usage
cmd_kill-IsAsked self kill (name ∷ arg ∷ args) =
    let tid = shell_atoi arg in
    elim (Bool-cases (is_not_positive tid)) [
      | inl bad ↦ rw bad is_refused
      | inr good ↦ elim (Bool-cases (tid == self)) [
        | inl me ↦ rw (good, me) (may_end exitcode_sigkill)
        | inr other ↦ rw (good, other) (may_kill tid _ (ground arith) (ground arith) (ground arith))
      ]
    ]
