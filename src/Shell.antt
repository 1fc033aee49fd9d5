-- ===== src/Shell.antt =====
-- user/shell.c: the command line that is split in place, the numbers in it, and the search for its
-- command. Strings lie in memory; the loops that a NUL ends run on fuel and answer none when that runs out.
pub mod Words
pub mod Find
pub mod Input
pub mod Procs
pub mod Dispatch
pub mod Commands
use ccos.Common.{
  ℕ, zero, suc, ◌+◌, ◌-◌, Bool, true, false, not, ◌&&◌, ◌||◌, Option, none, some, List, [], ◌∷◌,
  leb, ◌==◌, if◌then◌else◌, ℤ, take, ◌%◌,
}
use ccos.Kernel.{Tid, update}
use ccos.Memory.{Mem}
use ccos.Text.{u_strcmp}
use ccos.Number.{take_sign}
use ccos.Lines.{Reading, Line, u_gets}
use Prim.Native.Nat.{◌*◌, ◌^◌}

abbrev pub is_blank : ℕ → Bool
is_blank c = c == 32 || c == 9

-- `while (*p == ' ' || *p == '\t') p++;`
unfoldable pub skip_blank : (fuel p : ℕ) → Mem → Option ℕ
skip_blank zero p m = none
skip_blank (suc fuel) p m =
    let rest = skip_blank fuel (p + 1) m in if is_blank (m p) then rest else some p

-- `while (*p != '\0' && *p != ' ' && *p != '\t') p++;`
unfoldable pub token_end : (fuel p : ℕ) → Mem → Option ℕ
token_end zero p m = none
token_end (suc fuel) p m =
    let rest = token_end fuel (p + 1) m in
    if not (m p == 0) && not (is_blank (m p)) then rest else some p

-- The arguments are counted down from `max_args`; the result is those found, as pointers, and the line
-- with its NULs.
unfoldable pub parse_loop : (left fuel p : ℕ) → Mem → Option (List ℕ × Mem)
parse_loop zero fuel p m = some ([], m)
parse_loop (suc left) fuel p m = if m p == 0 then some ([], m) else elim (token_end fuel p m) [
  | none ↦ none
  | some e ↦ if m e == 0 then some (p ∷ [], m) else elim (skip_blank fuel (e + 1) (update m e 0)) [
    | none ↦ none
    | some q ↦ elim (parse_loop left fuel q (update m e 0)) [
      | none ↦ none
      | some r ↦ some (p ∷ r.0, r.1)
    ]
  ]
]

unfoldable pub shell_parse_line : (fuel line max_args : ℕ) → Mem → Option (List ℕ × Mem)
shell_parse_line fuel line max_args m = elim (skip_blank fuel line m) [
  | none ↦ none
  | some p ↦ parse_loop max_args fuel p m
]

pub shell_digits : (val : ℕ) → List ℕ → ℕ
shell_digits val [] = val
shell_digits val (c ∷ s) =
    if leb 48 c && leb c 57 then shell_digits ((val * 10 + (c - 48)) % 2 ^ 32) s else val

-- On the characters of the argument; an `int` is its 32 bits.
unfoldable pub shell_atoi : List ℕ → ℕ
shell_atoi s =
    let (neg, digits) = take_sign s in
    if neg then (2 ^ 32 - shell_digits 0 digits) % 2 ^ 32 else shell_digits 0 digits

abbrev pub is_zero : ℤ → Bool
is_zero (ℤ.pos n) = n == 0
is_zero (ℤ.negsuc n) = false

-- The index of the command, from the names of the table that are left; the inner none is NULL.
unfoldable pub find_loop : (fuel name i : ℕ) → List ℕ → Mem → Option (Option ℕ)
find_loop fuel name i [] m = some none
find_loop fuel name i (entry ∷ table) m =
    let rest = find_loop fuel name (i + 1) table m in
    elim (u_strcmp fuel name entry m) [
      | none ↦ none
      | some order ↦ if is_zero order then some (some i) else rest
    ]

unfoldable pub shell_find_cmd : (fuel name : ℕ) → List ℕ → Mem → Option (Option ℕ)
shell_find_cmd fuel name table m = find_loop fuel name 0 table m

-- SHELL_READ_OK, SHELL_READ_EOF, SHELL_READ_INTR and SHELL_READ_ERR.
abbrev pub read_code : ℤ → ℤ
read_code (ℤ.pos zero) = ℤ.pos 0
read_code (ℤ.pos (suc len)) = ℤ.pos 1
read_code (ℤ.negsuc e) = if e == 1 then ℤ.negsuc 1 else ℤ.negsuc 0

unfoldable pub shell_read_line : (line line_size : ℕ) → List Reading → Mem → Option (ℤ × Line)
shell_read_line line line_size input m = elim (u_gets line line_size input m) [
  | none ↦ none
  | some l ↦ some (read_code l.result, l)
]

abbrev pub shell_max_line : ℕ
shell_max_line = 128

abbrev pub shell_max_procs : ℕ
shell_max_procs = 4

-- The line is its characters before the NUL.
pub record ShellProc : Type 0 where
  pub in_use : Bool
  pub line : List ℕ

pub alloc_proc : (rounds i : ℕ) (line : List ℕ) → (ℕ → ShellProc) → Option (ℕ × (ℕ → ShellProc))
alloc_proc zero i line procs = none
alloc_proc (suc rounds) i line procs =
    let rest = alloc_proc rounds (i + 1) line procs in
    if not (procs i).in_use
    then some (i, update procs i (record { in_use = true; line = take (shell_max_line - 1) line }))
    else rest

unfoldable pub shell_proc_alloc : List ℕ → (ℕ → ShellProc) → Option (ℕ × (ℕ → ShellProc))
shell_proc_alloc line procs = alloc_proc shell_max_procs 0 line procs

-- A slot that is none is the null pointer.
unfoldable pub shell_proc_free : Option ℕ → (ℕ → ShellProc) → ℕ → ShellProc
shell_proc_free none procs = procs
shell_proc_free (some i) procs = update procs i (record { in_use = false; line = [] })

-- The start of a worker: it copies its line and releases its slot.
unfoldable pub worker_line : ℕ → (ℕ → ShellProc) → List ℕ × (ℕ → ShellProc)
worker_line proc procs =
    (take (shell_max_line - 1) (procs proc).line, shell_proc_free (some proc) procs)

-- The worker of a command that has been created, and what `thread_join` answers for it, none for a failure:
-- the result of the command, the line that the worker has, if one runs, and the slots.
pub record Ran : Type 0 where
  pub result : ℤ
  pub line : Option (List ℕ)
  pub procs : ℕ → ShellProc

abbrev pub join_status : Option ℤ → ℤ
join_status status = elim status [ none ↦ ℤ.negsuc 2 | some code ↦ code ]

-- While the shell waits in `thread_join`, the worker runs.
pub run_worker : (proc : ℕ) → (created : Tid) (status : Option ℤ) → (ℕ → ShellProc) → Ran
run_worker proc none status procs = record {
  result = ℤ.negsuc 1;
  line = none;
  procs = shell_proc_free (some proc) procs;
}
run_worker proc (some tid) status procs =
    let (line, procs') = worker_line proc procs in
    record { result = join_status status; line = some line; procs = procs' }

unfoldable pub shell_run_command :
    List ℕ → (created : Tid) (status : Option ℤ) → (ℕ → ShellProc) → Ran
shell_run_command line created status procs = elim (shell_proc_alloc line procs) [
  | none ↦ record { result = ℤ.negsuc 0; line = none; procs = procs }
  | some found ↦ run_worker found.0 created status found.1
]
