-- ===== src/Platform/Clock/Exact.antt =====
-- The time that platform/qemu-virt-sbi/platform.c reads from a count of ticks.
use ccos.Common.{ℕ, ◌+◌, ◌-◌, ◌<◌, ◌≡◌, sym, ap, ◌∙◌, arith, ◌^◌, ◌*◌, ◌/◌, ◌%◌}
use ccos.Platform.Clock.{platform_rtc_read_ns}
use native.Mathlib.Nat.{div-add-mod', mod-lt, mul_comm, mul_assoc, mul-add-div_right}

-- Seconds and the rest make up the ticks.
billion_ticks :
    (hz ticks : ℕ)
    → 0 < hz
    → ticks * 1000000000 / hz ≡ ticks / hz * 1000000000 + ticks % hz * 1000000000 / hz
billion_ticks hz ticks some_hz =
    let q = ticks / hz in
    let r = ticks % hz in
    let parts = div-add-mod' ticks hz in
    let swap : q * 1000000000 * hz ≡ q * hz * 1000000000 =
      mul_assoc q 1000000000 hz
      ∙ ap (λ z. q * z) (mul_comm 1000000000 hz)
      ∙ sym (mul_assoc q hz 1000000000) in
    let e : ticks * 1000000000 ≡ q * 1000000000 * hz + r * 1000000000 =
      omega (arith, parts, swap) in
    ap (λ z. z / hz) e ∙ mul-add-div_right some_hz (q * 1000000000) (r * 1000000000)

-- For a frequency of 32 bits that is not 0, the reading is the whole number of nanoseconds that the ticks
-- make, as 64 bits: the two divisions lose nothing, and no product but that of the seconds overflows.
pub platform_rtc_read_ns-exact :
    (hz ticks : ℕ)
    → 0 < hz
    → hz < 2 ^ 32
    → ticks < 2 ^ 64
    → platform_rtc_read_ns hz ticks ≡ ticks * 1000000000 / hz % 2 ^ 64
unfolding platform_rtc_read_ns
platform_rtc_read_ns-exact hz ticks some_hz small fits =
    let parts = div-add-mod' ticks hz in
    let rest : (ticks + 2 ^ 64 - ticks / hz * hz % 2 ^ 64) % 2 ^ 64 ≡ ticks % hz =
      omega (arith, parts) in
    let less : ticks % hz < hz = mod-lt ticks some_hz in
    let whole : ticks % hz * 1000000000 % 2 ^ 64 ≡ ticks % hz * 1000000000 = omega (arith, less) in
    rw (rest, whole, billion_ticks hz ticks some_hz) (omega arith)
