-- ===== src/Platform/Clock.antt =====
-- platform/qemu-virt-sbi: the clock and the timer (platform.c, timer.c). What the device tree says of
-- the frequency is an argument, none if it says nothing, and so is a reading of the time register. The
-- deadline is what the firmware was last asked for.
pub mod Exact
use ccos.Common.{ℕ, ◌+◌, ◌-◌, not, Option, none, some, ◌==◌, if◌then◌else◌, ◌/◌, ◌^◌, ◌%◌, ◌*◌}

-- `g_dtb` once it is set to `dtb_pa`; 0 is NULL, and none a panic.
pub platform_set_dtb : (dtb_pa g_dtb : ℕ) → Option ℕ
platform_set_dtb dtb_pa g_dtb =
    if dtb_pa == 0
    then some g_dtb
    else if g_dtb == 0
    then some dtb_pa
    else if not (g_dtb == dtb_pa)
    then none
    else some g_dtb

abbrev tree_hz : Option ℕ → ℕ
tree_hz none = 0
tree_hz (some f) = f % 2 ^ 32

-- The frequency, which is also what is cached; a cache of 0 is empty.
pub platform_timebase_hz : (tree : Option ℕ) (cached : ℕ) → ℕ
platform_timebase_hz tree cached =
    if not (cached == 0) then cached else if tree_hz tree == 0 then 10000000 else tree_hz tree

pub platform_sched_delta_ticks : (hz : ℕ) → ℕ
platform_sched_delta_ticks hz = let ticks = hz / 1000 in if ticks == 0 then 1 else ticks

pub platform_rtc_read_ns : (hz ticks : ℕ) → ℕ
platform_rtc_read_ns hz ticks =
    let sec = ticks / hz in
    let rem = (ticks + 2 ^ 64 - sec * hz % 2 ^ 64) % 2 ^ 64 in
    (sec * 1000000000 % 2 ^ 64 + rem * 1000000000 % 2 ^ 64 / hz) % 2 ^ 64

-- `timer_start_at`: the deadline.
abbrev pub timer_start_at : (deadline : ℕ) → ℕ
timer_start_at deadline = deadline

abbrev pub timer_start_after : (now delta_ticks : ℕ) → ℕ
timer_start_after now delta_ticks = timer_start_at ((now + delta_ticks) % 2 ^ 64)

abbrev pub timer_stop : ℕ
timer_stop = timer_start_at (2 ^ 64 - 1)
