-- ===== src/Monitor.antt =====
-- user/monitor.c: the monitors, which list the threads from time to time. An `int` is its value. What the
-- system calls answer are arguments: the results of `thread_create`, `thread_kill` and `thread_join`, and
-- the entries of `thread_list`.
pub mod Reports
pub mod Slots
use ccos.Common.{
  ℕ, zero, suc, ◌+◌, ◌-◌, ◌≤◌, ◌<◌, ◌≡◌, refl, sym, ap, ◌∙◌, ◌≢◌, ◌↔◌, ◌⊎◌, inl, inr, Bool, true,
  false, not, ◌&&◌, ◌||◌, Option, none, some, List, [], ◌∷◌, ◌++◌, map, arith, ltb, leb, ◌==◌,
  if◌then◌else◌, same, is_some, codes, ℤ, ltb→lt, lt→ltb, le→leb-false, leb→le, ==_iff, ==_refl,
  tests, Bool-cases, Option-cases, split_at, length, length-append, take, drop, get_last_or,
  get_last?, get_last_or-append, get_last?-append, mem, Distinct, erase, mem-append,
  Distinct-append, mem-erase, Distinct-erase, length-erase, nth, get_elem?, get_elem?-append,
  append_nil, append_assoc, length-drop, drop-drop, drop-append, drop-append_past, drop_all,
  length-take, drop-length-take, take_all, latest, latest-short, latest-append, nth-append,
  nth-snoc, take-drop, first_from, IsFound, first_from-IsFound, ◌%◌, ◌/◌, ◌^◌,
}
use ccos.Kernel.{
  thread_max, max_harts, first_tid, thread_stack_size, kstack_size, sched_slice_ticks, Tid,
  ThreadState, unused, runnable, running, sleeping, waiting, zombie, blocked, state_number,
  in_state, exitcode_sigkill, Trapframe, zero_tf, Thread, Runqueue, TfPtr, null, bootstrap,
  frame_of, Cpu, Kernel, same_tf, Machine, update, set_thread, set_runqueue, set_cpu,
}
use ccos.Thread.Info.{
  UThreadInfo, name_max, info_of, thread_sys_list, RqState, sys_runqueue_snapshot, thread_current,
  thread_name,
}
use ccos.Memory.{
  Mem, copy_up, copy_down, memmove, memcpy, fill_up, memset, chr_loop, memchr, int_diff, cmp_loop,
  memcmp,
}
use ccos.Print.{
  Slot, Args, Out, out_char, put_text, put_pad, LengthMod, len_none, len_l, len_ll, len_z,
  read_flags, read_width, skip_digits, skip_precision, read_second, read_length, Directive, ends,
  percent, conversion, read_spec, directive, sign_extend, signed_arg, unsigned_arg, upper,
  string_or_null, Field, field, unsupported, number_field, format_arg, padding, put_field,
  put_conversion, print_loop, terminate, start, u_vsnprintf, u_snprintf,
}

abbrev pub mon_max : ℕ
mon_max = 4

pub record MonCtx : Type 0 where
  pub used : Bool
  pub tid : ℤ
  pub seq : ℕ
  pub period : ℕ
  pub remaining : ℤ
  pub flags : ℕ

-- A `tid_t` of -1.
abbrev pub no_tid : ℤ
no_tid = ℤ.negsuc 0

abbrev pub is_below_zero : ℤ → Bool
is_below_zero (ℤ.pos n) = false
is_below_zero (ℤ.negsuc n) = true

abbrev pub same_int : ℤ → ℤ → Bool
same_int (ℤ.pos a) (ℤ.pos b) = a == b
same_int (ℤ.pos a) (ℤ.negsuc b) = false
same_int (ℤ.negsuc a) (ℤ.pos b) = false
same_int (ℤ.negsuc a) (ℤ.negsuc b) = a == b

-- The text of a hart in `buf`; none is -1.
pub fmt_hart : Tid → (buf bufsz : ℕ) → Mem → Option (Mem × ℕ)
fmt_hart (some hart) buf bufsz m =
    u_snprintf 3 buf bufsz (codes "%d") (λ i. record { bits = hart; text = none }) m
fmt_hart none buf bufsz m =
    u_snprintf 4 buf bufsz (codes "---") (λ i. record { bits = 0; text = none }) m

-- The three flags: user threads only, running threads only, no idle threads.
unfoldable pub mon_filter_pass : MonCtx → UThreadInfo → Bool
mon_filter_pass m ti =
    if m.flags % 2 == 1 && not ti.is_user
    then false
    else if m.flags / 2 % 2 == 1 && not (is_some ti.cpu)
    then false
    else if m.flags / 4 % 2 == 1 && ltb ti.tid max_harts
    then false
    else true

-- The entries that get a line.
unfoldable pub print_threads_table : MonCtx → List UThreadInfo → List UThreadInfo
print_threads_table m [] = []
print_threads_table m (ti ∷ infos) =
    let rest = print_threads_table m infos in if mon_filter_pass m ti then ti ∷ rest else rest

-- The end of a round with the count `remaining`: the countdown, and whether the thread exits.
pub count_from : ℤ → MonCtx → Bool × MonCtx
count_from (ℤ.negsuc n) m = (false, m)
count_from (ℤ.pos zero) m = (false, record m { remaining = ℤ.negsuc 0 })
count_from (ℤ.pos (suc zero)) m = (true, record m { remaining = ℤ.pos 0; used = false })
count_from (ℤ.pos (suc (suc n))) m = (false, record m { remaining = ℤ.pos (suc n) })

abbrev pub count_down : MonCtx → Bool × MonCtx
count_down m = count_from m.remaining m

-- The entries that are printed, if `thread_list` does not fail, and the slot with its number of reports.
pub print_report : Option (List UThreadInfo) → MonCtx → List UThreadInfo × MonCtx
print_report none m = ([], m)
print_report (some infos) m = (print_threads_table m infos, record m { seq = (m.seq + 1) % 2 ^ 32 })

-- What a monitor has done when it has been woken so many times: its reports, whether it has exited, its slot.
pub record Monitored : Type 0 where
  pub reports : List (List UThreadInfo)
  pub exited : Bool
  pub ctx : MonCtx

-- The loop of `monitor_main`, with what `thread_list` answers after each sleep, while no other thread
-- touches the slot.
pub monitor_main : List (Option (List UThreadInfo)) → MonCtx → Monitored
monitor_main [] m = record { reports = []; exited = not m.used; ctx = m }
monitor_main (listed ∷ later) m =
    let (report, m') = print_report listed m in
    let (exits, m'') = count_down m' in
    let rest = monitor_main later m'' in
    if not m.used
    then record { reports = []; exited = true; ctx = m }
    else if exits
    then record { reports = report ∷ []; exited = true; ctx = m'' }
    else record rest { reports = report ∷ rest.reports }

abbrev pub fresh_mon : MonCtx
fresh_mon = record {
  used = true;
  tid = no_tid;
  seq = 0;
  period = 10;
  remaining = ℤ.negsuc 0;
  flags = 0;
}

unfoldable pub mon_alloc : (ℕ → MonCtx) → Option (ℕ × (ℕ → MonCtx))
mon_alloc mons = elim (first_from mon_max 0 λ i. not (mons i).used) [
  | none ↦ none
  | some i ↦ some (i, update mons i fresh_mon)
]

unfoldable pub mon_find_by_tid : ℤ → (ℕ → MonCtx) → Option ℕ
mon_find_by_tid tid mons = first_from mon_max 0 λ i. (mons i).used && same_int (mons i).tid tid

-- The slot is filled, and then the thread is created, or not.
pub start_mon :
    (i period : ℕ) (count : ℤ) (flags : ℕ) (created : ℤ) → (ℕ → MonCtx) → ℤ × (ℕ → MonCtx)
start_mon i period count flags created mons =
    let m = record (mons i) { period = period; remaining = count; flags = flags } in
    if is_below_zero created
    then (created, update mons i (record m { used = false }))
    else (created, update mons i (record m { tid = created }))

unfoldable pub mon_start_ex :
    (period_ticks : ℕ) (count : ℤ) (flags : ℕ) (created : ℤ) → (ℕ → MonCtx) → ℤ × (ℕ → MonCtx)
mon_start_ex period_ticks count flags created mons = elim (mon_alloc mons) [
  | none ↦ (ℤ.negsuc 0, mons)
  | some (i, mons') ↦
      start_mon i (if period_ticks == 0 then 1 else period_ticks) count flags created mons'
]

abbrev pub mon_start : (period_ticks : ℕ) (count created : ℤ) → (ℕ → MonCtx) → ℤ × (ℕ → MonCtx)
mon_start period_ticks count created mons = mon_start_ex period_ticks count 0 created mons

-- The result of `mon_stop`, from those of `thread_kill` and `thread_join`.
pub stop_code : (kill join : ℤ) → ℤ
stop_code kill join =
    if same_int kill (ℤ.pos 0) && (is_below_zero join && not (same_int join (ℤ.negsuc 2)))
    then join
    else kill

unfoldable pub mon_stop : (tid kill join : ℤ) → (ℕ → MonCtx) → ℤ × (ℕ → MonCtx)
mon_stop tid kill join mons = elim (mon_find_by_tid tid mons) [
  | none ↦ (stop_code kill join, mons)
  | some i ↦ (stop_code kill join, update mons i (record (mons i) { used = false; tid = no_tid }))
]

pub list_mons : (n i : ℕ) → (ℕ → MonCtx) → List MonCtx
list_mons zero i mons = []
list_mons (suc n) i mons =
    let rest = list_mons n (i + 1) mons in if (mons i).used then mons i ∷ rest else rest

-- The monitors that get a line.
unfoldable pub mon_list : (ℕ → MonCtx) → List MonCtx
mon_list mons = list_mons mon_max 0 mons

-- The entries that are printed, and whether a note says that there may be more.
pub mon_once : Option (List UThreadInfo) → Option (List UThreadInfo × Bool)
mon_once none = none
mon_once (some infos) =
    some (print_threads_table (record fresh_mon { used = false }) infos, length infos == 32)
