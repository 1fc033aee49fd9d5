-- ===== src/Print/Directives.antt =====
-- What stands between a `%` of the format and the next character, in user/ulib_stdio.c.
use ccos.Common.{
  ℕ, ◌+◌, ◌-◌, ◌≤◌, ◌<◌, ◌≡◌, refl, ap, inl, inr, Bool, true, false, ◌||◌, Option, some, List, [],
  ◌∷◌, arith, ◌==◌, if◌then◌else◌, Bool-cases, length, ◌%◌,
}
use ccos.Number.{u_itoa}
use ccos.Print.{
  Slot, LengthMod, len_none, len_l, len_ll, len_z, read_flags, read_width, skip_digits,
  skip_precision, read_second, read_length, Directive, ends, percent, conversion, read_spec,
  directive, signed_arg, unsigned_arg, upper, string_or_null, Field, field, unsupported,
  number_field, format_arg,
}
use ccos.Number.Digits.{itoa_loop-ends, u_itoa-u_atol}
use Prim.Native.Nat.{◌*◌, ◌^◌}

read_flags-shorter : (l z : Bool) (fmt : List ℕ) → length (read_flags l z fmt).1.1 ≤ length fmt
unfolding read_flags
read_flags-shorter l z [] = omega arith
read_flags-shorter l z (c ∷ fmt) =
    ground (arith, read_flags-shorter true z fmt, read_flags-shorter l true fmt)

pub read_width-shorter : (w : ℕ) (fmt : List ℕ) → length (read_width w fmt).1 ≤ length fmt
unfolding read_width
read_width-shorter w [] = omega arith
read_width-shorter w (c ∷ fmt) =
    ground (arith, read_width-shorter ((w * 10 + (c - 48)) % 2 ^ 32) fmt)

skip_digits-shorter : (fmt : List ℕ) → length (skip_digits fmt) ≤ length fmt
unfolding skip_digits
skip_digits-shorter [] = omega arith
skip_digits-shorter (c ∷ fmt) = ground (arith, skip_digits-shorter fmt)

skip_precision-shorter : (fmt : List ℕ) → length (skip_precision fmt) ≤ length fmt
unfolding skip_precision
skip_precision-shorter [] = omega arith
skip_precision-shorter (c ∷ fmt) = ground (arith, skip_digits-shorter fmt)

pub read_second-shorter : (fmt : List ℕ) → length (read_second fmt).1 ≤ length fmt
unfolding read_second
read_second-shorter [] = omega arith
read_second-shorter (c ∷ fmt) = ground arith

read_length-shorter : (fmt : List ℕ) → length (read_length fmt).1 ≤ length fmt
unfolding read_length
read_length-shorter [] = omega arith
read_length-shorter (c ∷ fmt) = ground (arith, read_second-shorter fmt)

-- At most `n` characters follow the directive.
pub data Leaves (n : ℕ) : Directive → Type 0 where
  ended : Leaves n ends
  doubled : (after : List ℕ) → length after ≤ n → Leaves n (percent after)
  converted :
      (left zeros : Bool) (width : ℕ) (len : LengthMod) (spec : ℕ) (after : List ℕ)
      → length after ≤ n
      → Leaves n (conversion left zeros width len spec after)

read_spec-Leaves :
    (n : ℕ) (l z : Bool) (w : ℕ) (r : LengthMod × List ℕ)
    → length r.1 ≤ n
    → Leaves n (read_spec l z w r)
unfolding read_spec
read_spec-Leaves n l z w (len, []) fits = ended
read_spec-Leaves n l z w (len, spec ∷ after) fits = converted l z w len spec after (omega arith)

-- A directive ends within the format.
pub directive-Leaves : (fmt : List ℕ) → Leaves (length fmt) (directive fmt)
unfolding directive
directive-Leaves [] = ended
directive-Leaves (c ∷ fmt) =
    let flags = read_flags false false (c ∷ fmt) in
    let wide = read_width 0 flags.1.1 in
    elim (Bool-cases (c == 37)) [
      | inl e ↦ rw e (doubled fmt (omega arith))
      | inr e ↦ rw e (
          read_spec-Leaves (length (c ∷ fmt)) flags.0 flags.1.0 wide.0
            (read_length (skip_precision wide.1))
            (omega (
              arith,
              read_length-shorter (skip_precision wide.1),
              skip_precision-shorter wide.1,
              read_width-shorter 0 flags.1.1,
              read_flags-shorter false false (c ∷ fmt),
            )))
    ]

hex-Ends : (v : ℕ) → v < 2 ^ 64 → (q : List ℕ) × (u_itoa 64 v 16 false ≡ some q)
unfolding u_itoa
hex-Ends v fits = elim (Bool-cases (v == 0)) [
  | inl e ↦ (48 ∷ [], rw e refl)
  | inr e ↦
      let (q, (run, short)) =
        itoa_loop-ends 16 (λ w n lt. omega arith) 64 16 v [] (omega arith) (omega arith) in
      (q, rw (e, run) refl)
]

abbrev Ends {ℓ} : {A : Type ℓ} → Option A → Type ℓ
Ends {A = A} o = (a : A) × (o ≡ some a)

if_Ends {ℓ} : {A : Type ℓ} {x y : Option A} (b : Bool) → Ends x → Ends y → Ends (if b then x else y)
if_Ends true x y = x
if_Ends false x y = y

number-Ends :
    (str : Option (List ℕ)) (f : List ℕ → List ℕ) (z : Bool)
    → Ends str
    → Ends (number_field str f z)
number-Ends str f z (q, e) = (field (f q) z, ap (λ s. number_field s f z) e)

decimal-Ends : (v : ℕ) (sign : Bool) → v < 2 ^ 64 → Ends (u_itoa 64 v 10 sign)
decimal-Ends v sign fits = let (q, (e, rest)) = u_itoa-u_atol v sign fits in (q, e)

signed_arg-fits : (len : LengthMod) (v : ℕ) → signed_arg len v < 2 ^ 64
unfolding signed_arg
signed_arg-fits len_none v = ground arith
signed_arg-fits len_l v = omega arith
signed_arg-fits len_ll v = omega arith
signed_arg-fits len_z v = omega arith

unsigned_arg-fits : (len : LengthMod) (v : ℕ) → unsigned_arg len v < 2 ^ 64
unfolding unsigned_arg
unsigned_arg-fits len_none v = omega arith
unsigned_arg-fits len_l v = omega arith
unsigned_arg-fits len_ll v = omega arith
unsigned_arg-fits len_z v = omega arith

-- Every conversion has characters, or is one that is not supported: `u_itoa` has enough fuel.
pub format_arg-ends :
    (spec : ℕ) (len : LengthMod) (z : Bool) (arg : Slot)
    → (item : Field) × (format_arg spec len z arg ≡ some item)
unfolding format_arg
format_arg-ends spec len z arg =
    let signed = decimal-Ends (signed_arg len arg.bits) true (signed_arg-fits len arg.bits) in
    let unsigned =
      decimal-Ends (unsigned_arg len arg.bits) false (unsigned_arg-fits len arg.bits) in
    let hex = hex-Ends (unsigned_arg len arg.bits) (unsigned_arg-fits len arg.bits) in
    let pointer = hex-Ends (arg.bits % 2 ^ 64) (omega arith) in
    if_Ends (spec == 99) (field (arg.bits % 256 ∷ []) z, refl)
      (if_Ends (spec == 115) (field (string_or_null arg.text) false, refl)
        (if_Ends (spec == 100 || spec == 105)
          (number-Ends (u_itoa 64 (signed_arg len arg.bits) 10 true) (λ cs. cs) z signed)
          (if_Ends (spec == 117)
            (number-Ends (u_itoa 64 (unsigned_arg len arg.bits) 10 false) (λ cs. cs) z unsigned)
            (if_Ends (spec == 120)
              (number-Ends (u_itoa 64 (unsigned_arg len arg.bits) 16 false) (λ cs. cs) z hex)
              (if_Ends (spec == 88)
                (number-Ends (u_itoa 64 (unsigned_arg len arg.bits) 16 false) upper z hex)
                (if_Ends (spec == 112)
                  (number-Ends (u_itoa 64 (arg.bits % 2 ^ 64) 16 false) (λ cs. 48 ∷ 120 ∷ cs) false
                    pointer)
                  (unsupported, refl)))))))
