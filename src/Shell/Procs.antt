-- ===== src/Shell/Procs.antt =====
-- The slots of user/shell.c for the lines of commands that run in a thread of their own.
use ccos.Common.{
  ℕ, zero, suc, ◌+◌, ◌-◌, ◌≤◌, ◌<◌, ◌≡◌, refl, sym, ap, ◌∙◌, inl, inr, true, false, Option, none,
  some, List, [], ◌∷◌, arith, ◌==◌, ℤ, ==_iff, ==_refl, Bool-cases, length, take,
}
use ccos.Kernel.{Tid, update}
use ccos.Shell.{
  shell_max_line, shell_max_procs, ShellProc, alloc_proc, shell_proc_alloc, shell_proc_free,
  worker_line, Ran, join_status, run_worker, shell_run_command,
}
use mathlib.Core.Path.{subst}

take_all : (n : ℕ) (xs : List ℕ) → length xs ≤ n → take n xs ≡ xs
take_all zero [] short = refl
take_all zero (x ∷ xs) short = absurd (omega arith)
take_all (suc n) [] short = refl
take_all (suc n) (x ∷ xs) short = ap (λ ys. x ∷ ys) (take_all n xs (omega arith))

-- What an allocation finds among the `n` slots from `i` on.
data Allocates (n i : ℕ) (line : List ℕ) (procs : ℕ → ShellProc)
    : Option (ℕ × (ℕ → ShellProc)) → Type 0 where
  all_used : ((j : ℕ) → i ≤ j → j < i + n → (procs j).in_use ≡ true) → Allocates n i line procs none
  free_at :
      (w : ℕ)
      → i ≤ w
      → w < i + n
      → (procs w).in_use ≡ false
      → Allocates n i line procs (
          some
            (w, update procs w (record { in_use = true; line = take (shell_max_line - 1) line })))

alloc_proc-Allocates :
    (n i : ℕ) (line : List ℕ) (procs : ℕ → ShellProc)
    → Allocates n i line procs (alloc_proc n i line procs)
unfolding alloc_proc
alloc_proc-Allocates zero i line procs = all_used λ j low high. absurd (omega arith)
alloc_proc-Allocates (suc n) i line procs = elim (Bool-cases (procs i).in_use) [
  | inl used ↦ rw used (
      one_more n i line procs used (alloc_proc n (i + 1) line procs)
        (alloc_proc-Allocates n (i + 1) line procs))
  | inr free ↦ rw free (free_at i (omega arith) (omega arith) free)
]
  where
    one_more :
        (n i : ℕ) (line : List ℕ) (procs : ℕ → ShellProc)
        → (procs i).in_use ≡ true
        → (o : Option (ℕ × (ℕ → ShellProc))) → Allocates n (i + 1) line procs o
        → Allocates (suc n) i line procs o
    one_more n i line procs used _ (all_used rest) = all_used λ j low high.
        elim (Bool-cases (j == i)) [
          | inl here ↦ subst (λ h. (procs h).in_use ≡ true) (sym ((==_iff j i).0 here)) used
          | inr other ↦ rest j (ground arith) (omega arith)
        ]
    one_more n i line procs used _ (free_at w low high free) =
        free_at w (omega arith) (omega arith) free

-- The outcomes of running a command: no slot, no thread, or a worker that has the line.
pub data RunOf (line : List ℕ) (procs : ℕ → ShellProc) : Tid → Option ℤ → Ran → Type 0 where
  no_slot :
      (created : Tid) (status : Option ℤ)
      → ((j : ℕ) → j < shell_max_procs → (procs j).in_use ≡ true)
      → RunOf line procs created status (record { result = ℤ.negsuc 0; line = none; procs = procs })
  no_thread :
      (status : Option ℤ) (after : ℕ → ShellProc)
      → RunOf line procs none status (record { result = ℤ.negsuc 1; line = none; procs = after })
  has_run :
      (tid : ℕ) (status : Option ℤ) (after : ℕ → ShellProc)
      → RunOf line procs
          (some tid)
          status
          (record { result = join_status status; line = some line; procs = after })

frees :
    (w : ℕ) (c : ShellProc) (procs : ℕ → ShellProc) (j : ℕ)
    → (procs w).in_use ≡ false
    → (shell_proc_free (some w) (update procs w c) j).in_use ≡ (procs j).in_use
unfolding shell_proc_free
frees w c procs j free = elim (Bool-cases (j == w)) [
  | inl here ↦
      rw here (sym (subst (λ h. (procs h).in_use ≡ false) (sym ((==_iff j w).0 here)) free))
  | inr other ↦ ground arith
]

Keeps : (procs : ℕ → ShellProc) → Ran → Type 0
Keeps procs r = (j : ℕ) → (r.procs j).in_use ≡ (procs j).in_use

abbrev used : List ℕ → ShellProc
used line = record { in_use = true; line = take (shell_max_line - 1) line }

run_worker-RunOf :
    (line : List ℕ) (w : ℕ) (created : Tid) (status : Option ℤ) (procs : ℕ → ShellProc)
    → length line < shell_max_line
    → (procs w).in_use ≡ false
    → RunOf line procs created status (run_worker w created status (update procs w (used line)))
      × Keeps procs (run_worker w created status (update procs w (used line)))
unfolding run_worker worker_line Keeps
run_worker-RunOf line w none status procs short free = (
  no_thread status (shell_proc_free (some w) (update procs w (used line))),
  λ j. frees w (used line) procs j free,
)
run_worker-RunOf line w (some tid) status procs short free =
    let here : (update procs w (used line) w).line ≡ line =
      rw (==_refl w) (take_all 127 line (omega arith)) in
    let same : take 127 (update procs w (used line) w).line ≡ line =
      ap (take 127) here ∙ take_all 127 line (omega arith) in
    let after = shell_proc_free (some w) (update procs w (used line)) in
    (
      subst
          (λ ls.
            RunOf line procs (some tid) status
              (record { result = join_status status; line = some ls; procs = after }))
          (sym same) (has_run tid status after),
      λ j. frees w (used line) procs j free,
    )

run-RunOf :
    (line : List ℕ) (created : Tid) (status : Option ℤ) (procs : ℕ → ShellProc)
    → length line < shell_max_line
    → (o : Option (ℕ × (ℕ → ShellProc))) → shell_proc_alloc line procs ≡ o
    → Allocates shell_max_procs 0 line procs o
    → RunOf line procs created status (shell_run_command line created status procs)
      × Keeps procs (shell_run_command line created status procs)
unfolding Keeps shell_run_command
run-RunOf line created status procs short _ e (all_used full) =
    rw (shell_run_command, e)
      (no_slot created status (λ j lt. full j (omega arith) (omega arith)), λ j. refl)
run-RunOf line created status procs short _ e (free_at w low high free) =
    rw (shell_run_command, e) (run_worker-RunOf line w created status procs short free)

-- A line that fits its slot: a command is refused only when every slot is in use; otherwise, once a thread
-- has been created, its worker has the line and the shell has its status; and afterwards each slot is in
-- use just where it was before.
pub shell_run_command-RunOf :
    (line : List ℕ) (created : Tid) (status : Option ℤ) (procs : ℕ → ShellProc)
    → length line < shell_max_line
    → RunOf line procs created status (shell_run_command line created status procs)
      × ((j : ℕ)
          → ((shell_run_command line created status procs).procs j).in_use ≡ (procs j).in_use)
unfolding shell_proc_alloc Keeps
shell_run_command-RunOf line created status procs short =
    run-RunOf line created status procs short (shell_proc_alloc line procs) refl
      (alloc_proc-Allocates shell_max_procs 0 line procs)
