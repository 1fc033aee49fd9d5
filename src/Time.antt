-- ===== src/Time.antt =====
-- kernel/time.c: time since the start, over the clock of the platform, whose reading is an argument.
use ccos.Common.{ℕ, ◌+◌, ◌-◌, ◌≤◌, ◌<◌, ◌≡◌, arith, ◌/◌, ◌*◌, ◌^◌, ◌%◌}

pub record Timespec : Type 0 where
  pub tv_sec : ℕ
  pub tv_nsec : ℕ

-- `boot_real_ns` after `time_init`, called when the clock reads `now`.
pub time_init : ℕ → ℕ
time_init now = now

pub ktime_get_real_ns : ℕ → ℕ
ktime_get_real_ns now = now

pub ktime_get_real_ts : ℕ → Timespec
unfolding ktime_get_real_ns
ktime_get_real_ts now =
    let ns = ktime_get_real_ns now in
    record { tv_sec = ns / 1000000000; tv_nsec = (ns % 1000000000) % 2 ^ 32 }

pub ktime_get_monotonic_ns : (boot_real_ns now : ℕ) → ℕ
ktime_get_monotonic_ns boot_real_ns now = (now + 2 ^ 64 - boot_real_ns) % 2 ^ 64

pub ktime_get_monotonic_ts : (boot_real_ns now : ℕ) → Timespec
unfolding ktime_get_monotonic_ns
ktime_get_monotonic_ts boot_real_ns now =
    let ns = ktime_get_monotonic_ns boot_real_ns now in
    record { tv_sec = ns / 1000000000; tv_nsec = (ns % 1000000000) % 2 ^ 32 }

-- What a time stands for, in nanoseconds.
abbrev pub ns_of : Timespec → ℕ
ns_of t = t.tv_sec * 1000000000 + t.tv_nsec

split_ns :
    (ns : ℕ)
    → ((ns / 1000000000) * 1000000000 + (ns % 1000000000) % 2 ^ 32 ≡ ns)
      × ((ns % 1000000000) % 2 ^ 32 < 1000000000)
split_ns ns = (omega arith, omega arith)

-- The time since the start is what the clock has advanced since `time_init`, to the nanosecond, and
-- less than a second of it is in tv_nsec, while the clock has not been set back.
pub ktime_get_monotonic_ts-ns :
    (start now : ℕ)
    → start ≤ now
    → now < 2 ^ 64
    → (ns_of (ktime_get_monotonic_ts (time_init start) now) + start ≡ now)
      × ((ktime_get_monotonic_ts (time_init start) now).tv_nsec < 1000000000)
unfolding ktime_get_monotonic_ts ktime_get_monotonic_ns time_init
ktime_get_monotonic_ts-ns start now le lt =
    let ns = (now + 2 ^ 64 - start) % 2 ^ 64 in
    let elapsed : ns + start ≡ now = omega arith in
    let (whole, part) = split_ns ns in (omega (arith, whole, elapsed), part)
