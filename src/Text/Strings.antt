-- ===== src/Text/Strings.antt =====
-- C strings of lib/string.c and user/ulib_string.c: their length, their characters and their copies.
use ccos.Common.{
  ℕ, zero, suc, ◌+◌, ◌<◌, ◌≡◌, sym, ap, ◌∙◌, ◌≢◌, inl, inr, Option, none, some, List, [], ◌∷◌,
  arith, ltb, ◌==◌, if◌then◌else◌, ==_iff, Bool-cases, length, ◌%◌,
}
use ccos.Memory.{Mem}
use ccos.Text.{strlen, strnlen, strchr, strlen_loop, strchr_loop, strnlen_loop, at_end}
use ccos.Memory.Search.{FirstAt, found, absent, extend}
use mathlib.Core.Path.{subst}

-- The characters `xs` stand at `s`, and a NUL after them.
unfoldable pub CString : Mem → ℕ → List ℕ → Type 0
CString m s [] = m s ≡ 0
CString m s (x ∷ xs) = (m s ≡ x) × ((x ≢ 0) × CString m (s + 1) xs)

strlen_loop-length :
    (fuel s n : ℕ) (m : Mem) (xs : List ℕ)
    → CString m (s + n) xs
    → length xs < fuel
    → strlen_loop fuel s n m ≡ some (n + length xs)
unfolding strlen_loop CString
strlen_loop-length zero s n m xs here fits = absurd (omega arith)
strlen_loop-length (suc fuel) s n m [] here fits = rw here (ap some (omega arith))
strlen_loop-length (suc fuel) s n m (x ∷ xs) (here, (ne, rest)) fits = ground (
  arith,
  strlen_loop-length fuel s (n + 1) m xs (subst (λ p. CString m p xs) (omega arith) rest)
      (omega arith),
)

-- The loop of `strlen` ends at the NUL, and its result is the number of characters before it.
pub strlen-length :
    (fuel s : ℕ) (m : Mem) (xs : List ℕ)
    → CString m s xs
    → length xs < fuel
    → strlen fuel s m ≡ some (length xs)
unfolding strlen
strlen-length fuel s m xs here fits =
    strlen_loop-length fuel s 0 m xs (subst (λ p. CString m p xs) (omega arith) here) fits
    ∙ ap some (omega arith)

strnlen_loop-length :
    (rounds s i : ℕ) (m : Mem) (xs : List ℕ)
    → CString m (s + i) xs
    → strnlen_loop rounds s i m ≡ i + (if ltb rounds (length xs) then rounds else length xs)
unfolding strnlen_loop CString
strnlen_loop-length zero s i m xs here = ground arith
strnlen_loop-length (suc n) s i m [] here = ground arith
strnlen_loop-length (suc n) s i m (x ∷ xs) (here, (ne, rest)) =
    ground
      (arith, strnlen_loop-length n s (i + 1) m xs (subst (λ p. CString m p xs) (omega arith) rest))

-- `strnlen` answers the length of the string or `maxlen`, whichever is less.
pub strnlen-length :
    (s maxlen : ℕ) (m : Mem) (xs : List ℕ)
    → CString m s xs
    → strnlen s maxlen m ≡ (if ltb maxlen (length xs) then maxlen else length xs)
unfolding strnlen
strnlen-length s maxlen m xs here =
    strnlen_loop-length maxlen s 0 m xs (subst (λ p. CString m p xs) (omega arith) here)
    ∙ omega arith

strchr_loop-FirstAt :
    (fuel p i c : ℕ) (m : Mem) (xs : List ℕ)
    → CString m (p + i) xs
    → length xs < fuel
    → ((j : ℕ) → j < i → m (p + j) ≢ c)
    → (o : Option ℕ) × ((strchr_loop fuel (p + i) c m ≡ some o)
        × FirstAt m p (i + suc (length xs)) c o)
unfolding strchr_loop CString at_end
strchr_loop-FirstAt zero p i c m xs here fits before = absurd (omega arith)
strchr_loop-FirstAt (suc fuel) p i c m [] here fits before = elim (Bool-cases (c == 0)) [
  | inl nul ↦
      (some (p + i), (ground arith, found i (omega arith) (here ∙ sym ((==_iff c 0).0 nul)) before))
  | inr other ↦ (
    none,
    (
      ground arith,
      absent λ j lt. extend i m p c before (λ e. absurd (ground arith)) j (omega arith),
    ),
  )
]
strchr_loop-FirstAt (suc fuel) p i c m (x ∷ xs) (here, (ne, rest)) fits before =
    elim (Bool-cases (m (p + i) == c)) [
      | inl hit ↦ (
        some (p + i),
        (ground arith, found i (omega arith) ((==_iff (m (p + i)) c).0 hit) before),
      )
      | inr miss ↦
          let next : p + i + 1 ≡ p + (i + 1) = omega arith in
          let (o, (run, first)) =
            strchr_loop-FirstAt fuel p (i + 1) c m xs (subst (λ q. CString m q xs) next rest)
              (omega arith) (extend i m p c before (ground arith)) in
          (
            o,
            (
              ground (arith, subst (λ q. strchr_loop fuel q c m ≡ some o) (sym next) run),
              subst (λ n. FirstAt m p n c o) (omega arith) first,
            ),
          )
    ]

-- `strchr` answers the first place of the string, its NUL included, that holds the character.
pub strchr-FirstAt :
    (fuel s c : ℕ) (m : Mem) (xs : List ℕ)
    → CString m s xs
    → length xs < fuel
    → (o : Option ℕ) × ((strchr fuel s c m ≡ some o) × FirstAt m s (suc (length xs)) (c % 256) o)
unfolding strchr
strchr-FirstAt fuel s c m xs here fits =
    let start : s ≡ s + 0 = omega arith in
    let (o, (run, first)) =
      strchr_loop-FirstAt fuel s 0 (c % 256) m xs (subst (λ p. CString m p xs) start here) fits
        λ j lt. absurd (omega arith) in
    (
      o,
      (
        subst (λ p. strchr_loop fuel p (c % 256) m ≡ some o) (sym start) run,
        subst (λ n. FirstAt m s n (c % 256) o) (omega arith) first,
      ),
    )
