-- ===== src/Number/Digits.antt =====
-- The digits that `u_itoa` of user/ulib_stdio.c writes are the number that `u_atol` of
-- user/ulib_string.c reads.
use ccos.Common.{
  ℕ, zero, suc, ◌+◌, ◌-◌, ◌≤◌, ◌<◌, ◌≡◌, refl, sym, ap, ◌∙◌, ◌⊎◌, inl, inr, Bool, true, false, ◌&&◌,
  some, List, [], ◌∷◌, arith, ltb, ◌==◌, ==_iff, Bool-cases, length, ◌%◌,
}
use ccos.Number.{
  is_negative, negate, digit_char, itoa_loop, u_itoa, u_isspace_ch, u_isdigit_ch, skip_spaces,
  take_sign, digits_loop, u_atol,
}
use Prim.Native.Nat.{◌*◌, ◌/◌, ◌^◌}
use mathlib.Core.Path.{subst}
use native.Mathlib.Omega.{pow_step}
use native.Mathlib.Numerals.{unary_clauses}

-- The loop ends when it has written `k` digits of a number below the power `k` of the base.
module _ (base : ℕ) (step : (v n : ℕ) → v < base * n → v / base < n) where
  pub itoa_loop-ends :
      (fuel k v : ℕ) (p : List ℕ)
      → k < fuel
      → v < base ^ k
      → (q : List ℕ) × ((itoa_loop fuel v base p ≡ some q) × (length q ≤ k + length p))
  unfolding itoa_loop
  itoa_loop-ends zero k v p deep fits = absurd (omega arith)
  itoa_loop-ends (suc fuel) zero v p deep fits =
      let small : v < 1 = simp unary_clauses at fits in
      let done : ltb 0 v ≡ false = ground arith in (p, (rw done refl, omega arith))
  itoa_loop-ends (suc fuel) (suc k) v p deep fits = elim (Bool-cases (ltb 0 v)) [
    | inl more ↦
        let (q, (run, short)) =
          itoa_loop-ends fuel k (v / base) (digit_char (v % base) ∷ p) (omega arith)
            (step v (base ^ k) (subst (λ n. v < n) (pow_step base k) fits)) in
        (q, (rw more run, omega arith))
    | inr last ↦ (p, (rw last refl, omega arith))
  ]

digits_loop-digit :
    (v d : ℕ) (p : List ℕ)
    → d < 10
    → v * 10 + d < 2 ^ 64
    → digits_loop v (digit_char d ∷ p) ≡ digits_loop (v * 10 + d) p
unfolding digits_loop
digits_loop-digit v d p small fits =
    let char : digit_char d ≡ 48 + d = ground arith in
    let digit : u_isdigit_ch (48 + d) ≡ true = ground arith in
    let val : (v * 10 + (48 + d - 48)) % 2 ^ 64 ≡ v * 10 + d = omega arith in
    rw (char, digit, val) refl

digits_loop-itoa :
    (fuel v : ℕ) (p q : List ℕ)
    → v < 2 ^ 64
    → itoa_loop fuel v 10 p ≡ some q
    → digits_loop 0 q ≡ digits_loop v p
unfolding itoa_loop
digits_loop-itoa zero v p q fits run = ground arith
digits_loop-itoa (suc fuel) v p q fits run = elim (Bool-cases (ltb 0 v)) [
  | inl more ↦
      digits_loop-itoa fuel (v / 10) (digit_char (v % 10) ∷ p) q (omega arith) (ground arith)
      ∙ digits_loop-digit (v / 10) (v % 10) p (omega arith) (omega arith)
      ∙ ap (λ n. digits_loop n p) (omega arith)
  | inr last ↦ ground arith
]

-- The first character is a digit.
StartsDigit : List ℕ → Type 0
StartsDigit [] = ⊥
StartsDigit (c ∷ p) = u_isdigit_ch c ≡ true

digit_char-digit : (d : ℕ) → d < 10 → u_isdigit_ch (digit_char d) ≡ true
digit_char-digit d small = ground arith

itoa_loop-StartsDigit :
    (fuel v : ℕ) (p q : List ℕ)
    → (0 < v) ⊎ StartsDigit p
    → itoa_loop fuel v 10 p ≡ some q
    → StartsDigit q
unfolding itoa_loop StartsDigit
itoa_loop-StartsDigit zero v p q some_digit run = ground arith
itoa_loop-StartsDigit (suc fuel) v p q some_digit run = elim (Bool-cases (ltb 0 v)) [
  | inl more ↦
      itoa_loop-StartsDigit fuel (v / 10) (digit_char (v % 10) ∷ p) q
        (inr (digit_char-digit (v % 10) (omega arith))) (ground arith)
  | inr last ↦ started v p q (ground arith) (ground arith) some_digit
]
  where
    started : (v : ℕ) (p q : List ℕ) → v ≡ 0 → p ≡ q → (0 < v) ⊎ StartsDigit p → StartsDigit q
    started v p q z e (inl more) = absurd (omega arith)
    started v p q z e (inr digit) = subst StartsDigit e digit

-- A positive number is written in at most 20 digits, which are read back.
record IsWritten (v : ℕ) (q : List ℕ) : Type 0 where
  run : itoa_loop 64 v 10 [] ≡ some q
  short : length q ≤ 20
  digit : StartsDigit q
  back : digits_loop 0 q ≡ v

positive-IsWritten : (v : ℕ) → 0 < v → v < 2 ^ 64 → (q : List ℕ) × IsWritten v q
unfolding digits_loop
positive-IsWritten v some_digit fits =
    let (q, (run, short)) =
      itoa_loop-ends 10 (λ w n lt. omega arith) 64 20 v [] (omega arith) (omega arith) in
    (
      q,
      record {
        run = run;
        short = omega arith;
        digit = itoa_loop-StartsDigit 64 v [] q (inl some_digit) run;
        back = digits_loop-itoa 64 v [] q fits run;
      },
    )

u_atol-digits : (q : List ℕ) → StartsDigit q → u_atol q ≡ digits_loop 0 q
unfolding u_atol skip_spaces take_sign StartsDigit
u_atol-digits [] digit = absurd digit
u_atol-digits (c ∷ q) digit =
    let space : u_isspace_ch c ≡ false = ground arith in
    let plus : c == 43 ≡ false = ground arith in
    let minus : c == 45 ≡ false = ground arith in rw (space, plus, minus) refl

u_atol-zero : u_atol (48 ∷ []) ≡ 0
unfolding u_atol skip_spaces take_sign digits_loop
u_atol-zero = refl

u_atol-minus : (q : List ℕ) → u_atol (45 ∷ q) ≡ negate (digits_loop 0 q)
unfolding u_atol skip_spaces take_sign
u_atol-minus q = refl

-- A `long` in decimal, signed or not, takes at most 21 of the 64 bytes that `u_vsnprintf` has for it,
-- and `u_atol` reads the same bits back.
pub u_itoa-u_atol :
    (v : ℕ) (sign : Bool)
    → v < 2 ^ 64
    → (q : List ℕ) × ((u_itoa 64 v 10 sign ≡ some q) × ((length q ≤ 21) × (u_atol q ≡ v)))
unfolding u_itoa
u_itoa-u_atol v sign fits = elim (Bool-cases (sign && is_negative v)) [
  | inl negative ↦
      let (q, w) = positive-IsWritten (negate v) (ground arith) (omega arith) in
      let nonzero : negate v == 0 ≡ false = ground arith in
      (
        45 ∷ q,
        (
          rw (negative, nonzero, w.run) refl,
          (omega (arith, w.short), u_atol-minus q ∙ ap negate w.back ∙ ground arith),
        ),
      )
  | inr plain ↦ elim (Bool-cases (v == 0)) [
    | inl zero_value ↦ (
      48 ∷ [],
      (rw (plain, zero_value) refl, (omega arith, u_atol-zero ∙ sym ((==_iff v 0).0 zero_value))),
    )
    | inr positive ↦
        let (q, w) = positive-IsWritten v (ground arith) fits in
        (
          q,
          (
            rw (plain, positive, w.run) refl,
            (omega (arith, w.short), u_atol-digits q w.digit ∙ w.back),
          ),
        )
  ]
]
