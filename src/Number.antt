-- ===== src/Number.antt =====
-- Numbers and their digits: `u_itoa` of user/ulib_stdio.c and the number helpers of
-- user/ulib_string.c. A `long` is its 64 bits and an `int` its 32, so a negative number is one at or
-- above the half; sums and products wrap around, also where C leaves the overflow of a signed number
-- undefined. A string is the list of its characters; `u_itoa` puts the digits before those it
-- has, as the code does from the end of its buffer down, and its loop runs on fuel.
pub mod Digits
use ccos.Common.{
  ℕ, zero, suc, ◌+◌, ◌-◌, Bool, true, false, ◌&&◌, ◌||◌, Option, none, some, List, [], ◌∷◌, ltb,
  leb, ◌==◌, if◌then◌else◌, ◌%◌, ℤ,
}
use Prim.Native.Nat.{◌*◌, ◌/◌, ◌^◌}

abbrev pub is_negative : ℕ → Bool
is_negative v = leb (2 ^ 63) v

-- `-value`
abbrev pub negate : ℕ → ℕ
negate v = (2 ^ 64 - v) % 2 ^ 64

abbrev pub digit_char : ℕ → ℕ
digit_char digit = if ltb digit 10 then 48 + digit else 97 + (digit - 10)

pub itoa_loop : (fuel v base : ℕ) (p : List ℕ) → Option (List ℕ)
itoa_loop zero v base p = none
itoa_loop (suc fuel) v base p =
    let rest = itoa_loop fuel (v / base) base (digit_char (v % base) ∷ p) in
    if ltb 0 v then rest else some p

-- The `-` in front.
abbrev pub with_sign : Bool → Option (List ℕ) → Option (List ℕ)
with_sign negative p = elim p [ none ↦ none | some cs ↦ some (if negative then 45 ∷ cs else cs) ]

unfoldable pub u_itoa : (fuel value base : ℕ) (sign : Bool) → Option (List ℕ)
u_itoa fuel value base sign =
    let v = if sign && is_negative value then negate value else value in
    with_sign (sign && is_negative value)
      (if v == 0 then some (48 ∷ []) else itoa_loop fuel v base [])

abbrev pub u_isspace_ch : ℕ → Bool
u_isspace_ch c = c == 32 || c == 9 || c == 10 || c == 13 || c == 12 || c == 11

abbrev pub u_isdigit_ch : ℕ → Bool
u_isdigit_ch c = leb 48 c && leb c 57

pub skip_spaces : List ℕ → List ℕ
skip_spaces [] = []
skip_spaces (c ∷ s) = if u_isspace_ch c then skip_spaces s else c ∷ s

-- Whether a `-` stands there, and what follows the sign.
pub take_sign : List ℕ → Bool × List ℕ
take_sign [] = (false, [])
take_sign (c ∷ s) = if c == 43 then (false, s) else if c == 45 then (true, s) else (false, c ∷ s)

pub digits_loop : (val : ℕ) → List ℕ → ℕ
digits_loop val [] = val
digits_loop val (c ∷ s) =
    if u_isdigit_ch c then digits_loop ((val * 10 + (c - 48)) % 2 ^ 64) s else val

unfoldable pub u_atol : List ℕ → ℕ
u_atol s =
    let (negative, digits) = take_sign (skip_spaces s) in
    if negative then negate (digits_loop 0 digits) else digits_loop 0 digits

unfoldable pub u_atoi : List ℕ → ℕ
u_atoi s = u_atol s % 2 ^ 32

-- The 32 bits of an `int`.
abbrev pub int_of : ℕ → ℤ
int_of v = if ltb v (2 ^ 31) then ℤ.pos v else ℤ.negsuc (2 ^ 32 - 1 - v)
