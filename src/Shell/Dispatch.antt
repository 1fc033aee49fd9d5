-- ===== src/Shell/Dispatch.antt =====
-- user/shell.c: the command of a line, looked up by the shell and, for a command that has a thread of its
-- own, again by that thread on its copy of the line. What the command then does is in Shell/Commands.antt.
pub mod Chosen
pub mod Worker
use ccos.Common.{
  ℕ, zero, suc, ◌+◌, ◌-◌, ◌≤◌, ◌<◌, ◌≡◌, refl, sym, ap, ◌∙◌, ◌≢◌, ◌↔◌, ◌⊎◌, inl, inr, Bool, true,
  false, not, ◌&&◌, ◌||◌, Option, none, some, List, [], ◌∷◌, ◌++◌, map, arith, ltb, leb, ◌==◌,
  if◌then◌else◌, same, is_some, codes, ℤ, ltb→lt, lt→ltb, le→leb-false, leb→le, ==_iff, ==_refl,
  tests, Bool-cases, Option-cases, split_at, length, length-append, take, drop, get_last_or,
  get_last?, get_last_or-append, get_last?-append, mem, Distinct, erase, mem-append,
  Distinct-append, mem-erase, Distinct-erase, length-erase, nth, get_elem?, get_elem?-append,
  append_nil, append_assoc, length-drop, drop-drop, drop-append, drop-append_past, drop_all,
  length-take, drop-length-take, take_all, latest, latest-short, latest-append, nth-append,
  nth-snoc, take-drop, first_from, IsFound, none_passes, first_passes, first_from-IsFound,
}
use ccos.Kernel.{
  thread_max, max_harts, first_tid, thread_stack_size, kstack_size, sched_slice_ticks, Tid,
  ThreadState, unused, runnable, running, sleeping, waiting, zombie, blocked, state_number,
  in_state, exitcode_sigkill, Trapframe, zero_tf, Thread, Runqueue, TfPtr, null, bootstrap,
  frame_of, Cpu, Kernel, same_tf, Machine, update, set_thread, set_runqueue, set_cpu,
}
use ccos.Memory.{
  Mem, copy_up, copy_down, memmove, memcpy, fill_up, memset, chr_loop, memchr, int_diff, cmp_loop,
  memcmp,
}
use ccos.Shell.{
  is_blank, skip_blank, token_end, parse_loop, shell_parse_line, shell_digits, shell_atoi, is_zero,
  find_loop, shell_find_cmd, read_code, shell_read_line, shell_max_line, shell_max_procs, ShellProc,
  alloc_proc, shell_proc_alloc, shell_proc_free, worker_line, Ran, join_status, run_worker,
  shell_run_command,
}

abbrev pub shell_max_args : ℕ
shell_max_args = 8

-- Where the name of a command stands, and `run_in_shell`.
abbrev pub Table : Type 0
Table = List (ℕ × Bool)

-- The names of `g_shell_cmds` and their flags, in their order.
abbrev pub g_shell_cmds : List (List ℕ × Bool)
g_shell_cmds =
    (codes "help", true)
    ∷ (codes "echo", true)
    ∷ (codes "sleep", false)
    ∷ (codes "ps", true)
    ∷ (codes "jobs", true)
    ∷ (codes "kill", true)
    ∷ (codes "rq", true)
    ∷ (codes "date", false)
    ∷ (codes "uptime", false)
    ∷ (codes "irqstat", false)
    ∷ (codes "spawn", true)
    ∷ (codes "mon", false)
    ∷ (codes "exit", true)
    ∷ []

unfoldable pub names_of : Table → List ℕ
names_of [] = []
names_of ((name, in_shell) ∷ table) = name ∷ names_of table

unfoldable pub runs_in_shell : Table → ℕ → Bool
runs_in_shell [] i = false
runs_in_shell ((name, in_shell) ∷ table) zero = in_shell
runs_in_shell ((name, in_shell) ∷ table) (suc i) = runs_in_shell table i

-- `while (line[i] && i < SHELL_MAX_LINE - 1)`: the characters that are copied.
unfoldable pub copy_line : (room p : ℕ) → Mem → List ℕ
copy_line zero p m = []
copy_line (suc n) p m = let rest = copy_line n (p + 1) m in if m p == 0 then [] else m p ∷ rest

-- A line with its NUL on the stack of a thread.
pub store_line : (s : ℕ) → List ℕ → Mem → Mem
store_line s [] m = update m s 0
store_line s (c ∷ text) m = store_line (s + 1) text (update m s c)

-- What the words of a line stand for: nothing, an unknown name, or a command with its arguments.
pub data Looked : Type 0 where
  no_words : Looked
  no_command : (name : ℕ) → Looked
  command : (i : ℕ) (argv : List ℕ) → Looked

unfoldable pub look_up : (fuel : ℕ) → Table → (argv : List ℕ) → Mem → Option Looked
look_up fuel table [] m = some no_words
look_up fuel table (name ∷ argv) m = elim (shell_find_cmd fuel name (names_of table) m) [
  | none ↦ none
  | some found ↦ some (elim found [ none ↦ no_command name | some i ↦ command i (name ∷ argv) ])
]

-- `shell_parse_line`, and then `shell_find_cmd` if there is a word.
unfoldable pub find_command : (fuel line : ℕ) → Table → Mem → Option (Looked × Mem)
find_command fuel line table m = elim (shell_parse_line fuel line shell_max_args m) [
  | none ↦ none
  | some r ↦ elim (look_up fuel table r.0 r.1) [ none ↦ none | some l ↦ some (l, r.1) ]
]

pub data Dispatched : Type 0 where
  blank : Dispatched
  unknown : (name : ℕ) → Dispatched
  in_shell : (i : ℕ) (argv : List ℕ) → Dispatched
  in_worker : (i : ℕ) (raw_line : List ℕ) → Dispatched

unfoldable pub choose : Table → (raw_line : List ℕ) → Looked → Dispatched
choose table raw_line no_words = blank
choose table raw_line (no_command name) = unknown name
choose table raw_line (command i argv) =
    if runs_in_shell table i then in_shell i argv else in_worker i raw_line

unfoldable pub shell_dispatch_line : (fuel line : ℕ) → Table → Mem → Option (Dispatched × Mem)
shell_dispatch_line fuel line table m =
    let raw_line = copy_line (shell_max_line - 1) line m in
    elim (find_command fuel line table m) [
      | none ↦ none
      | some r ↦ some (choose table raw_line r.0, r.1)
    ]

-- What the thread of a command does with its line, which `worker_line` has copied: it exits at once with
-- a code, or runs a command and exits with 0.
pub data Work : Type 0 where
  exits : (code : ℤ) → Work
  runs : (i : ℕ) (argv : List ℕ) → Work

pub work_of : Looked → Work
work_of no_words = exits (ℤ.pos 0)
work_of (no_command name) = exits (ℤ.negsuc 0)
work_of (command i argv) = runs i argv

pub shell_cmd_worker : (fuel stack : ℕ) (line : List ℕ) → Table → Mem → Option (Work × Mem)
shell_cmd_worker fuel stack line table m =
    elim (find_command fuel stack table (store_line stack line m)) [
      | none ↦ none
      | some r ↦ some (work_of r.0, r.1)
    ]
