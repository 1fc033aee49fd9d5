-- ===== src/Print/Stdout/Written.antt =====
-- What `u_printf` of user/ulib_stdio.c writes.
use ccos.Common.{
  ℕ, zero, suc, ◌+◌, ◌≤◌, ◌<◌, ◌≡◌, refl, sym, ap, ◌∙◌, inl, inr, true, false, ◌||◌, some, List, [],
  ◌∷◌, arith, ltb, leb, ◌==◌, ℤ, Bool-cases, length, take, nth, take_all, ◌^◌, ◌%◌,
}
use ccos.Print.{Args}
use ccos.Print.Bounds.{Holds, u_vsnprintf-Holds}
use ccos.Print.Stdout.{bytes_at, printed, u_printf, write_out}
use ccos.Memory.{Mem}
use ccos.Number.{int_of}

bytes_at-take :
    (m : Mem) (n a : ℕ) (text : List ℕ)
    → n ≤ length text
    → ((i : ℕ) → i < n → m (a + i) ≡ nth text i)
    → bytes_at m a n ≡ take n text
unfolding bytes_at
bytes_at-take m zero a text fits same_byte = refl
bytes_at-take m (suc n) a [] fits same_byte = absurd (omega arith)
bytes_at-take m (suc n) a (c ∷ text) fits same_byte =
    let here : m a ≡ c = ap m (omega arith) ∙ same_byte 0 (omega arith) in
    let later : bytes_at m (a + 1) n ≡ take n text =
      bytes_at-take m n (a + 1) text (omega arith)
        (λ i lt. ap m (omega arith) ∙ same_byte (suc i) (omega arith)) in
    rw (here, later) refl

printed-take :
    (buf : ℕ) (m m' : Mem) (text : List ℕ)
    → length text < 2 ^ 31
    → Holds m m' buf 256 text
    → printed buf (length text % 2 ^ 32) m' ≡ take 255 text
printed-take buf m m' [] fits holds = refl
printed-take buf m m' (c ∷ cs) fits holds =
    let text = c ∷ cs in
    let whole : length text % 2 ^ 32 ≡ length text = omega arith in
    let some_text : (length text == 0 || leb (2 ^ 31) (length text)) ≡ false = ground arith in
    elim (Bool-cases (ltb (length text) 256)) [
      | inl small ↦
          let fill : bytes_at m' buf (length text) ≡ take (length text) text =
            bytes_at-take m' (length text) buf text (omega arith)
              (λ i lt. holds.kept i lt (ground arith)) in
          rw (whole, some_text, small, fill)
            (take_all (length text) text (omega arith) ∙ sym (take_all 255 text (ground arith)))
      | inr large ↦
          let fill : bytes_at m' buf 255 ≡ take 255 text =
            bytes_at-take m' 255 buf text (ground arith) (λ i lt. holds.kept i (ground arith) lt) in
          rw (whole, some_text, large) fill
    ]

-- For a format with fuel for each of its characters, and its arguments, there is one text such that
-- u_printf ends; if the text is shorter than 2 ^ 31 it answers its length, and writes the first 255
-- characters of it.
pub u_printf-take :
    (fuel : ℕ) (fmt : List ℕ) (args : Args)
    → length fmt < fuel
    → (text : List ℕ) × ((buf : ℕ) (m : Mem)
        → length text < 2 ^ 31
        → u_printf fuel buf fmt args m ≡ some (ℤ.pos (length text), take 255 text))
unfolding u_printf
u_printf-take fuel fmt args fits =
    let (text, run) = u_vsnprintf-Holds fuel fmt args fits in
    (
      text,
      λ buf m short.
          let (m', (e, holds)) = run buf 256 m in
          let whole : length text % 2 ^ 32 ≡ length text = omega arith in
          let positive : ltb (length text) (2 ^ 31) ≡ true = ground arith in
          let answer : int_of (length text % 2 ^ 32) ≡ ℤ.pos (length text) =
            rw (whole, positive) refl in
          ap (write_out buf) e ∙ rw (answer, printed-take buf m m' text short holds) refl,
    )
