-- ===== src/Platform/Output/Decimal.antt =====
-- The decimal numbers of platform/qemu-virt-sbi/platform.c fit their buffer and can be read back.
use native.Mathlib.Omega.{pow_step}
use ccos.Common.{
  ℕ, zero, suc, ◌+◌, ◌-◌, ◌≤◌, ◌<◌, ◌≡◌, refl, ap, ◌∙◌, inl, inr, some, List, [], ◌∷◌, arith, ◌==◌,
  Bool-cases, length, ◌*◌, ◌^◌, ◌/◌,
}
use ccos.Platform.Output.{dec_loop, platform_put_dec_us}

-- The value of decimal digits behind `val`.
pub digits_value : (val : ℕ) → List ℕ → ℕ
digits_value val [] = val
digits_value val (c ∷ cs) = digits_value (val * 10 + (c - 48)) cs

dec_loop-digits_value :
    (room x : ℕ) (tmp : List ℕ)
    → x < 10 ^ room
    → (cs : List ℕ) × (dec_loop room x tmp ≡ some cs)
      × (digits_value 0 cs ≡ digits_value x tmp)
      × (length cs ≤ length tmp + room)
unfolding dec_loop digits_value
dec_loop-digits_value zero x tmp fits =
    let none_left : x ≡ 0 = omega arith in (tmp, rw none_left refl, rw none_left refl, omega arith)
dec_loop-digits_value (suc room) x tmp fits = elim (Bool-cases (x == 0)) [
  | inl none_left ↦ let e : x ≡ 0 = ground arith in (tmp, rw e refl, rw e refl, omega arith)
  | inr more ↦
      let c = 48 + (x - x / 10 * 10) in
      let (cs, run, value, short) =
        dec_loop-digits_value room (x / 10) (c ∷ tmp) (omega (arith, pow_step 10 room)) in
      let back : x / 10 * 10 + (c - 48) ≡ x = omega arith in
      (cs, rw (more, run) refl, value ∙ ap (λ v. digits_value v tmp) back, omega (arith, short))
]

-- A number of 64 bits is written without an overrun, in at most the 20 digits that the buffer has room for,
-- and the digits are those of the number.
pub platform_put_dec_us-digits_value :
    (x : ℕ)
    → x < 2 ^ 64
    → (cs : List ℕ) × (platform_put_dec_us x ≡ some cs) × (digits_value 0 cs ≡ x) × (length cs ≤ 20)
unfolding platform_put_dec_us digits_value
platform_put_dec_us-digits_value x fits = elim (Bool-cases (x == 0)) [
  | inl none_left ↦ (48 ∷ [], rw none_left refl, ground arith, omega arith)
  | inr more ↦
      let (cs, run, value, short) = dec_loop-digits_value 20 x [] (omega arith) in
      (cs, rw (more, run) refl, value, short)
]
