-- ===== src/Tests/Clock.antt =====
-- The theorem on the time since the start at two readings of the clock.
use ccos.Common.{◌+◌, ◌<◌, ◌≡◌, arith}
use ccos.Time.{time_init, ktime_get_monotonic_ts, ns_of, ktime_get_monotonic_ts-ns}

ktime_get_monotonic_ts-ns_example :
    (ns_of (ktime_get_monotonic_ts (time_init 4000000005) 9500000000) + 4000000005 ≡ 9500000000)
    × ((ktime_get_monotonic_ts (time_init 4000000005) 9500000000).tv_nsec < 1000000000)
ktime_get_monotonic_ts-ns_example =
    ktime_get_monotonic_ts-ns 4000000005 9500000000 (omega arith) (omega arith)
