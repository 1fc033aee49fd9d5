-- ===== src/Shell/Commands.antt =====
-- user/shell.c: the commands. The arguments are the words of the line, the first of which names the
-- command; what the system calls answer are parameters. Of what a command prints the model keeps the
-- kind of message or the entries of the table.
pub mod Asked
pub mod Monitors
use ccos.Common.{
  ℕ, zero, suc, ◌+◌, ◌-◌, ◌≤◌, ◌<◌, ◌≡◌, refl, sym, ap, ◌∙◌, ◌≢◌, ◌↔◌, ◌⊎◌, inl, inr, Bool, true,
  false, not, ◌&&◌, ◌||◌, Option, none, some, List, [], ◌∷◌, ◌++◌, map, arith, ltb, leb, ◌==◌,
  if◌then◌else◌, same, is_some, codes, ℤ, ltb→lt, lt→ltb, le→leb-false, leb→le, ==_iff, ==_refl,
  tests, Bool-cases, Option-cases, split_at, length, length-append, take, drop, get_last_or,
  get_last?, get_last_or-append, get_last?-append, mem, Distinct, erase, mem-append,
  Distinct-append, mem-erase, Distinct-erase, length-erase, nth, get_elem?, get_elem?-append,
  append_nil, append_assoc, length-drop, drop-drop, drop-append, drop-append_past, drop_all,
  length-take, drop-length-take, take_all, latest, latest-short, latest-append, nth-append,
  nth-snoc, take-drop, first_from, IsFound, none_passes, first_passes, first_from-IsFound, ◌^◌,
}
use ccos.Kernel.{
  thread_max, max_harts, first_tid, thread_stack_size, kstack_size, sched_slice_ticks, Tid,
  ThreadState, unused, runnable, running, sleeping, waiting, zombie, blocked, state_number,
  in_state, exitcode_sigkill, Trapframe, zero_tf, Thread, Runqueue, TfPtr, null, bootstrap,
  frame_of, Cpu, Kernel, same_tf, Machine, update, set_thread, set_runqueue, set_cpu,
}
use ccos.Number.{
  is_negative, negate, digit_char, itoa_loop, with_sign, u_itoa, u_isspace_ch, u_isdigit_ch,
  skip_spaces, take_sign, digits_loop, u_atol, u_atoi, int_of,
}
use ccos.Print.{
  Slot, Args, Out, out_char, put_text, put_pad, LengthMod, len_none, len_l, len_ll, len_z,
  read_flags, read_width, skip_digits, skip_precision, read_second, read_length, Directive, ends,
  percent, conversion, read_spec, directive, sign_extend, signed_arg, unsigned_arg, upper,
  string_or_null, Field, field, unsupported, number_field, format_arg, padding, put_field,
  put_conversion, print_loop, terminate, start, u_vsnprintf, u_snprintf,
}
use ccos.Datetime.{
  Datetime, secs_per_min, secs_per_hour, secs_per_day, month_days, is_leap_year, days_in_year,
  days_in_month, year_loop, month_loop, fill_date, epoch_to_utc_datetime,
}
use ccos.Time.{
  Timespec, time_init, ktime_get_real_ns, ktime_get_real_ts, ktime_get_monotonic_ns,
  ktime_get_monotonic_ts, ns_of, ktime_get_monotonic_ts-ns,
}
use ccos.Thread.Info.{
  UThreadInfo, name_max, info_of, thread_sys_list, RqState, sys_runqueue_snapshot, thread_current,
  thread_name,
}
use ccos.Platform.{
  max_irq, IrqStat, IrqHandler, uart16550, IrqTable, platform_irq_table_init,
  platform_register_irq_handler, UartEvent, rx, line_status, modem_status, transmitter_empty, other,
  uart16550_irq_handler, Claim, delta_of, count_irq, note_irq, platform_handle_s_external,
  IrqReport, platform_irq_get_stats, sys_irq_get_stats,
}
use ccos.Monitor.{
  mon_max, MonCtx, no_tid, is_below_zero, same_int, fmt_hart, mon_filter_pass, print_threads_table,
  count_from, count_down, print_report, Monitored, monitor_main, fresh_mon, mon_alloc,
  mon_find_by_tid, start_mon, mon_start_ex, mon_start, stop_code, mon_stop, list_mons, mon_list,
  mon_once,
}
use ccos.Shell.{
  is_blank, skip_blank, token_end, parse_loop, shell_parse_line, shell_digits, shell_atoi, is_zero,
  find_loop, shell_find_cmd, read_code, shell_read_line, shell_max_line, shell_max_procs, ShellProc,
  alloc_proc, shell_proc_alloc, shell_proc_free, worker_line, Ran, join_status, run_worker,
  shell_run_command,
}

-- `!u_strcmp(a, b)` on two texts.
pub same_text : List ℕ → List ℕ → Bool
same_text [] [] = true
same_text [] (d ∷ ds) = false
same_text (c ∷ cs) [] = false
same_text (c ∷ cs) (d ∷ ds) = c == d && same_text cs ds

-- The texts that `cmd_echo` prints one behind the other; `u_printf` cuts each to 255 characters.
pub echo_loop : List (List ℕ) → List (List ℕ)
echo_loop [] = []
echo_loop (arg ∷ []) = take 255 (arg ++ 10 ∷ []) ∷ []
echo_loop (arg ∷ next ∷ args) = take 255 (arg ++ 32 ∷ []) ∷ echo_loop (next ∷ args)

unfoldable pub cmd_echo : List (List ℕ) → List (List ℕ)
cmd_echo [] = (10 ∷ []) ∷ []
cmd_echo (name ∷ []) = (10 ∷ []) ∷ []
cmd_echo (name ∷ arg ∷ args) = echo_loop (arg ∷ args)

-- What a command asks of the kernel.
pub data Request : Type 0 where
  usage : Request
  refused : Request
  sleeps : (ticks : ℕ) → Request
  exits_with : (code : ℤ) → Request
  kills : (tid : ℕ) → (rc : ℤ) → Request

-- A number that is not positive as an `int`.
abbrev pub is_not_positive : ℕ → Bool
is_not_positive v = v == 0 || leb (2 ^ 31) v

unfoldable pub cmd_sleep : List (List ℕ) → Request
cmd_sleep [] = usage
cmd_sleep (name ∷ []) = usage
cmd_sleep (name ∷ arg ∷ args) =
    let ticks = shell_atoi arg in if is_not_positive ticks then refused else sleeps ticks

abbrev pub cmd_exit : List (List ℕ) → Request
cmd_exit argv = exits_with (ℤ.pos 0)

-- `self` is what `thread_current` answers, and `kill` what `thread_kill` answers for a thread.
unfoldable pub cmd_kill : (self : ℕ) (kill : ℕ → ℤ) → List (List ℕ) → Request
cmd_kill self kill [] = usage
cmd_kill self kill (name ∷ []) = usage
cmd_kill self kill (name ∷ arg ∷ args) =
    let tid = shell_atoi arg in
    if is_not_positive tid
    then refused
    else if tid == self
    then exits_with exitcode_sigkill
    else kills tid (kill tid)

abbrev pub shell_thread_list_max : ℕ
shell_thread_list_max = 32

-- The entries of `ps`, and whether it notes that there may be more; none is a failure of `thread_list`.
abbrev pub cmd_ps : Option (List UThreadInfo) → Option (List UThreadInfo × Bool)
cmd_ps none = none
cmd_ps (some infos) = some (infos, length infos == shell_thread_list_max)

pub jobs_loop : List UThreadInfo → List UThreadInfo
jobs_loop [] = []
jobs_loop (ti ∷ infos) = let rest = jobs_loop infos in if not ti.is_user then rest else ti ∷ rest

unfoldable pub cmd_jobs : Option (List UThreadInfo) → Option (List UThreadInfo × Bool)
cmd_jobs none = none
cmd_jobs (some infos) = some (jobs_loop infos, length infos == shell_thread_list_max)

-- A hart, the length of its queue, and the threads, between which an arrow is printed.
pub rq_loop : List RqState → List (ℕ × ℕ × List ℕ)
rq_loop [] = []
rq_loop (s ∷ states) = (s.hart, s.len, take s.len s.tids) ∷ rq_loop states

abbrev pub cmd_rq : Option (List RqState) → Option (List (ℕ × ℕ × List ℕ))
cmd_rq none = none
cmd_rq (some states) = some (rq_loop states)

-- The date for a time that has been read.
abbrev pub cmd_date : (fuel : ℕ) → Timespec → Option Datetime
cmd_date fuel ts = epoch_to_utc_datetime fuel ts.tv_sec

pub irqstat_loop : List IrqReport → List IrqReport
irqstat_loop [] = []
irqstat_loop (e ∷ entries) =
    let rest = irqstat_loop entries in if e.stat.count == 0 then rest else e ∷ rest

abbrev pub cmd_irqstat : Option (List IrqReport) → Option (List IrqReport)
cmd_irqstat none = none
cmd_irqstat (some entries) = some (irqstat_loop entries)

-- What `mon` ends in: help, a table, the list of monitors, a start or a stop with its result, a missing
-- number, or a sub-command that is not known.
pub data MonAnswer : Type 0 where
  mon_usage : MonAnswer
  once : Option (List UThreadInfo × Bool) → MonAnswer
  listed : List MonCtx → MonAnswer
  missing : MonAnswer
  start_result : (tid : ℤ) → MonAnswer
  stop_result : (tid rc : ℤ) → MonAnswer
  unknown_mon : MonAnswer

-- `count` is -1 if it is not given.
abbrev pub mon_count : List (List ℕ) → ℤ
mon_count [] = ℤ.negsuc 0
mon_count (count ∷ args) = int_of (u_atoi count)

pub start_args : (created : ℤ) → List (List ℕ) → (ℕ → MonCtx) → MonAnswer × (ℕ → MonCtx)
start_args created [] mons = (missing, mons)
start_args created (period ∷ args) mons =
    let (tid, mons') = mon_start (u_atoi period) (mon_count args) created mons in
    (start_result tid, mons')

-- `thread_kill` and `thread_join` as functions of the thread.
pub stop_args : (kill join : ℤ → ℤ) → List (List ℕ) → (ℕ → MonCtx) → MonAnswer × (ℕ → MonCtx)
stop_args kill join [] mons = (missing, mons)
stop_args kill join (arg ∷ args) mons =
    let tid = int_of (u_atoi arg) in
    let (rc, mons') = mon_stop tid (kill tid) (join tid) mons in (stop_result tid rc, mons')

-- The sub-command and its arguments.
unfoldable pub cmd_mon :
    Option (List UThreadInfo)
    → (created : ℤ) (kill join : ℤ → ℤ) → List (List ℕ)
    → (ℕ → MonCtx)
    → MonAnswer × (ℕ → MonCtx)
cmd_mon infos created kill join [] mons = (mon_usage, mons)
cmd_mon infos created kill join (name ∷ []) mons = (mon_usage, mons)
cmd_mon infos created kill join (name ∷ sub ∷ args) mons =
    if same_text sub (codes "once")
    then (once (mon_once infos), mons)
    else if same_text sub (codes "list")
    then (listed (mon_list mons), mons)
    else if same_text sub (codes "start")
    then start_args created args mons
    else if same_text sub (codes "stop")
    then stop_args kill join args mons
    else (unknown_mon, mons)
