-- ===== src/Tests/Commands.antt =====
-- The theorems on the shell, its test workers and the monitors at a short line and small tables.
use ccos.Common.{
  ℕ, ◌+◌, ◌≤◌, ◌<◌, ◌≡◌, refl, ◌⊎◌, true, false, ◌||◌, none, some, List, [], ◌∷◌, arith, ltb, ◌==◌,
  if◌then◌else◌, codes, ℤ, length, Option, inl, ◌-◌,
}
use ccos.Kernel.{update}
use ccos.Memory.{Mem}
use ccos.Number.{u_itoa}
use ccos.Text.{u_strcmp}
use ccos.Text.Strings.{CString}
use ccos.Lines.{Reading, got}
use ccos.Lines.Editing.{some_stops}
use ccos.Shell.{
  skip_blank, token_end, parse_loop, shell_parse_line, find_loop, shell_find_cmd, ShellProc,
  shell_run_command,
}
use ccos.Shell.Words.{word, after_word, drop_blanks, rest_of, words, Argv, shell_parse_line-words}
use ccos.Shell.Find.{Names}
use ccos.Shell.Procs.{RunOf, shell_run_command-RunOf}
use ccos.Shell.Dispatch.{
  Table, names_of, runs_in_shell, copy_line, look_up, find_command, Dispatched, in_worker, choose,
  shell_dispatch_line, runs, shell_cmd_worker,
}
use ccos.Shell.Dispatch.Chosen.{AreApart, IsDispatched, shell_dispatch_line-IsDispatched}
use ccos.Shell.Dispatch.Worker.{shell_dispatch_line-shell_cmd_worker}
use ccos.Shell.Commands.{cmd_mon}
use ccos.Shell.Commands.Monitors.{cmd_mon-cmd_mon}
use ccos.Monitor.{MonCtx, no_tid, monitor_main, fresh_mon}
use ccos.Monitor.Reports.{Reported, monitor_main-Reported}
use ccos.Monitor.Slots.{runs}
use ccos.Spawn.{mode_spin, Spawned, spawn_cfg_init, Killing, spawn_kill}
use ccos.Spawn.Counts.{live, IsCounted, spawn_kill-IsCounted}
use ccos.Spawn.Command.{spawn, listed_workers}
use ccos.Spawn.Command.Counted.{spawn-IsCounted}

-- "ps 3" at 100, and the names "mon" and "ps" of a table at 200 and 210.
abbrev memory_at : Mem
memory_at a =
    if a == 100 || a == 210
    then 112
    else if a == 101 || a == 211
    then 115
    else if a == 102
    then 32
    else if a == 103
    then 51
    else if a == 200
    then 109
    else if a == 201
    then 111
    else if a == 202
    then 110
    else 0

abbrev ps_3 : List ℕ
ps_3 = 112 ∷ 115 ∷ 32 ∷ 51 ∷ []

abbrev ps : List ℕ
ps = 112 ∷ 115 ∷ []

abbrev mon : List ℕ
mon = 109 ∷ 111 ∷ 110 ∷ []

ps_3-CString : CString memory_at 100 ps_3
unfolding CString
ps_3-CString = (
  refl,
  (
    (λ e. ground arith),
    (
      refl,
      ((λ e. ground arith), (refl, ((λ e. ground arith), (refl, ((λ e. ground arith), refl))))),
    ),
  ),
)

table-Names : Names memory_at (200 ∷ 210 ∷ []) (mon ∷ ps ∷ [])
unfolding Names CString
table-Names = (
  (refl, ((λ e. ground arith), (refl, ((λ e. ground arith), (refl, ((λ e. ground arith), refl)))))),
  ((refl, ((λ e. ground arith), (refl, ((λ e. ground arith), refl)))), tt),
)

shell_parse_line-words_example :
    (at : List ℕ) × (m' : Mem) × ((shell_parse_line 5 100 8 memory_at ≡ some (at, m'))
      × (Argv m' at (words 8 (drop_blanks ps_3))
          × ((a : ℕ) → (a < 100) ⊎ (100 + length ps_3 ≤ a) → m' a ≡ memory_at a)))
shell_parse_line-words_example =
    shell_parse_line-words 5 100 8 memory_at ps_3 ps_3-CString (omega arith)

the_words : words 8 (drop_blanks ps_3) ≡ ps ∷ (51 ∷ []) ∷ []
unfolding words drop_blanks word after_word rest_of
the_words = refl

found_ps-CString : CString memory_at 210 ps
unfolding CString
found_ps-CString = (refl, ((λ e. ground arith), (refl, ((λ e. ground arith), refl))))

-- Workers 0 and 1 have the threads 20 and 21.
abbrev two_workers : Spawned
two_workers = record {
  cfg = λ i. record (spawn_cfg_init i mode_spin 0 0) {
    tid = if ltb i 2 then some (20 + i) else none;
  };
  active = 2;
  inited = true;
}

two_workers-IsCounted : IsCounted two_workers
unfolding IsCounted live
two_workers-IsCounted = refl

-- Thread 21 has ended already.
abbrev killing : Killing
killing = record { kill = λ t. if t == 21 then ℤ.negsuc 0 else ℤ.pos 0; join = λ t. ℤ.pos 0 }

spawn_kill-IsCounted_example :
    IsCounted (spawn_kill killing two_workers).0
    × (((spawn_kill killing two_workers).0.active ≡ 0)
        × (((spawn_kill killing two_workers).1.requested ≡ 2)
            × ((spawn_kill killing two_workers).1.joined + (spawn_kill killing two_workers).1.errors
                ≡ 2)))
spawn_kill-IsCounted_example = spawn_kill-IsCounted killing two_workers two_workers-IsCounted

-- "hi", typed with a newline.
abbrev typed_hi : List Reading
typed_hi = got 104 ∷ got 105 ∷ got 10 ∷ []

hi_stops : some_stops typed_hi ≡ true
unfolding some_stops
hi_stops = refl

-- The first slot is taken.
abbrev one_used : ℕ → ShellProc
one_used i = record { in_use = i == 0; line = [] }

shell_run_command-RunOf_example :
    RunOf ps_3 one_used
      (some 12)
      (some (ℤ.pos 0))
      (shell_run_command ps_3 (some 12) (some (ℤ.pos 0)) one_used)
    × ((j : ℕ)
        → ((shell_run_command ps_3 (some 12) (some (ℤ.pos 0)) one_used).procs j).in_use
          ≡ (one_used j).in_use)
shell_run_command-RunOf_example =
    shell_run_command-RunOf ps_3 (some 12) (some (ℤ.pos 0)) one_used (omega arith)

-- `mon` runs in a thread of its own, and `ps` in the shell, or the other way round.
abbrev two_commands : Table
two_commands = (200, false) ∷ (210, true) ∷ []

abbrev swapped_commands : Table
swapped_commands = (200, true) ∷ (210, false) ∷ []

-- As the linker scripts lay them out: the names in .rodata, and the stacks, with the line at 300 and room at
-- 400, in .bss behind them.
abbrev loaded : Mem
loaded a = if ltb a 300 then memory_at a else memory_at (a - 200)

loaded-CString : CString loaded 300 ps_3
unfolding CString
loaded-CString = (
  refl,
  (
    (λ e. ground arith),
    (
      refl,
      ((λ e. ground arith), (refl, ((λ e. ground arith), (refl, ((λ e. ground arith), refl))))),
    ),
  ),
)

loaded-Names : Names loaded (200 ∷ 210 ∷ []) (mon ∷ ps ∷ [])
unfolding Names CString
loaded-Names = (
  (refl, ((λ e. ground arith), (refl, ((λ e. ground arith), (refl, ((λ e. ground arith), refl)))))),
  ((refl, ((λ e. ground arith), (refl, ((λ e. ground arith), refl)))), tt),
)

names_below : (low high : ℕ) → 213 ≤ low → AreApart low high (200 ∷ 210 ∷ []) (mon ∷ ps ∷ [])
unfolding AreApart
names_below low high le = (inl (omega arith), (inl (omega arith), tt))

two_commands-Names : Names loaded (names_of two_commands) (mon ∷ ps ∷ [])
unfolding names_of
two_commands-Names = loaded-Names

two_commands-AreApart : AreApart 300 304 (names_of two_commands) (mon ∷ ps ∷ [])
unfolding names_of
two_commands-AreApart = names_below 300 304 (omega arith)

swapped-Names : Names loaded (names_of swapped_commands) (mon ∷ ps ∷ [])
unfolding names_of
swapped-Names = loaded-Names

swapped-AreApart :
    (low high : ℕ) → 213 ≤ low → AreApart low high (names_of swapped_commands) (mon ∷ ps ∷ [])
unfolding names_of
swapped-AreApart = names_below

shell_dispatch_line-IsDispatched_example :
    (d : Dispatched) × (m' : Mem) × (shell_dispatch_line 9 300 two_commands loaded ≡ some (d, m'))
    × IsDispatched ps_3 (mon ∷ ps ∷ []) two_commands m' d
shell_dispatch_line-IsDispatched_example =
    shell_dispatch_line-IsDispatched 9 300 two_commands loaded ps_3 (mon ∷ ps ∷ []) loaded-CString
      (omega arith) (omega arith) two_commands-AreApart two_commands-Names

ps_in_worker :
    shell_dispatch_line 9 300 swapped_commands loaded ≡ some (in_worker 1 ps_3, update loaded 302 0)
unfolding shell_dispatch_line find_command look_up names_of runs_in_shell choose copy_line
    shell_parse_line parse_loop skip_blank token_end shell_find_cmd find_loop u_strcmp
ps_in_worker = refl

shell_dispatch_line-shell_cmd_worker_example :
    (argv : List ℕ) × (n' : Mem) × (shell_cmd_worker 9 400 ps_3 swapped_commands loaded
      ≡ some (runs 1 argv, n'))
    × Argv n' argv (words 8 (drop_blanks ps_3))
shell_dispatch_line-shell_cmd_worker_example =
    shell_dispatch_line-shell_cmd_worker 9 300 400 1 swapped_commands loaded (update loaded 302 0)
      loaded ps_3 ps_3 (mon ∷ ps ∷ []) loaded-CString (omega arith) (omega arith)
      (swapped-AreApart 300 304 (omega arith)) (swapped-AreApart 400 405 (omega arith))
      swapped-Names swapped-Names ps_in_worker

-- A monitor that reports three times.
abbrev three_reports : MonCtx
three_reports = record fresh_mon { tid = ℤ.pos 9; remaining = ℤ.pos 3 }

monitor_main-Reported_example :
    Reported (ℤ.pos 3) 4 (monitor_main (none ∷ some [] ∷ some [] ∷ some [] ∷ []) three_reports)
monitor_main-Reported_example =
    monitor_main-Reported (none ∷ some [] ∷ some [] ∷ some [] ∷ []) three_reports refl

abbrev one_monitor : ℕ → MonCtx
one_monitor i = record three_reports { used = i == 0 }

-- `mon start 5 2` makes the thread 12.
cmd_mon-cmd_mon_example :
    (q : List ℕ) × (u_itoa 64 12 10 true ≡ some q)
    × ((j : ℕ)
        → ((cmd_mon none no_tid
              (λ t. ℤ.pos 0)
              (λ t. ℤ.pos 0)
              (codes "mon" ∷ codes "stop" ∷ q ∷ [])
              (cmd_mon none
                (ℤ.pos 12)
                (λ t. ℤ.pos 0)
                (λ t. ℤ.pos 0)
                (codes "mon" ∷ codes "start" ∷ codes "5" ∷ codes "2" ∷ [])
                one_monitor).1).1
            j).used
          ≡ (one_monitor j).used)
cmd_mon-cmd_mon_example =
    cmd_mon-cmd_mon none (λ t. ℤ.pos 0) (λ t. ℤ.pos 0) 12 no_tid (codes "5") (codes "2" ∷ [])
      one_monitor (omega arith) (λ j lt up. ground arith)

-- Three more workers are asked for, and only one is made.
abbrev spawn_three : List (List ℕ)
spawn_three = codes "spawn" ∷ codes "yield" ∷ codes "3" ∷ []

abbrev one_made : ℕ → Option ℕ
one_made i = if i == 0 then some 9 else none

spawn-IsCounted_example :
    IsCounted (spawn killing one_made spawn_three two_workers).1
    × (length (listed_workers 16 0 (spawn killing one_made spawn_three two_workers).1.cfg)
        ≡ (spawn killing one_made spawn_three two_workers).1.active)
spawn-IsCounted_example =
    spawn-IsCounted killing one_made spawn_three two_workers (λ _. two_workers-IsCounted)
