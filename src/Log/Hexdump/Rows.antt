-- ===== src/Log/Hexdump/Rows.antt =====
-- The lines of `log_hexdump` (lib/log.c).
use ccos.Common.{
  ℕ, zero, suc, ◌+◌, ◌-◌, ◌≤◌, ◌<◌, ◌≡◌, refl, ap, ◌∙◌, inl, inr, Bool, true, ◌&&◌, List, [], ◌∷◌,
  ◌++◌, arith, ltb, leb, ◌==◌, if◌then◌else◌, Bool-cases, length, length-append, nth, append_nil,
  append_assoc, ◌/◌, ◌*◌, ◌%◌,
}
use ccos.Print.{len_none, read_width}
use ccos.Log.{read_longs, read_pad, item_of, log_item}
use ccos.Log.Format.Complete.{IsComplete, ended, plain, converts}
use ccos.Log.Hexdump.{log_isprint, hex_digits, row_loop, row_format}

pub row_format-IsComplete : IsComplete row_format
unfolding log_item item_of read_longs read_pad read_width
row_format-IsComplete = converts _ 115 32 0 len_none _ refl (
    converts _ 88 32 0 len_none _ refl (
      plain _ _ refl (
        plain _ _ refl (
          converts _ 115 32 0 len_none _ refl (
            plain _ _ refl
              (plain _ _ refl (converts _ 115 32 0 len_none _ refl (plain _ _ refl ended))))))))

-- The text of a row, read back.
digit_value : ℕ → ℕ
digit_value c = if leb 65 c then c - 55 else c - 48

pub row_value : List ℕ → List ℕ
row_value [] = []
row_value (a ∷ []) = []
row_value (a ∷ b ∷ []) = []
row_value (a ∷ b ∷ s ∷ cs) = (digit_value a * 16 + digit_value b) ∷ row_value cs

-- A test that holds below a number holds at each number below it.
all_below : ℕ → (ℕ → Bool) → Bool
all_below zero f = true
all_below (suc n) f = f n && all_below n f

all_below-at : (n i : ℕ) (f : ℕ → Bool) → all_below n f ≡ true → i < n → f i ≡ true
unfolding all_below
all_below-at zero i f all lt = absurd (omega arith)
all_below-at (suc n) i f all lt = elim (Bool-cases (i == n)) [
  | inl e ↦ let p : i ≡ n = ground arith in rw p (ground arith)
  | inr ne ↦ all_below-at n i f (ground arith) (ground arith)
]

digit_value-nth : (n : ℕ) → n < 16 → digit_value (nth hex_digits n) ≡ n
unfolding digit_value all_below
digit_value-nth n lt =
    ground (arith, all_below-at 16 n (λ m. digit_value (nth hex_digits m) == m) refl lt)

-- The two texts of a row.
hex_of : List ℕ → List ℕ
hex_of [] = []
hex_of (b ∷ p) = nth hex_digits (b / 16 % 16) ∷ nth hex_digits (b % 16) ∷ 32 ∷ hex_of p

ascii_of : List ℕ → List ℕ
ascii_of [] = []
ascii_of (b ∷ p) = (if log_isprint b then b else 46) ∷ ascii_of p

pub AllBytes : List ℕ → Type 0
AllBytes [] = Unit {0}
AllBytes (b ∷ p) = (b < 256) × AllBytes p

row_value-hex_of : (p : List ℕ) → AllBytes p → row_value (hex_of p) ≡ p
unfolding row_value hex_of AllBytes
row_value-hex_of [] all = refl
row_value-hex_of (b ∷ p) (small, all) =
    rw
      (
        row_value-hex_of p all,
        digit_value-nth (b / 16 % 16) (omega arith),
        digit_value-nth (b % 16) (omega arith),
      )
      (ap (λ x. x ∷ p) (omega arith))

length-hex_of : (p : List ℕ) → length (hex_of p) ≡ 3 * length p
unfolding hex_of
length-hex_of [] = refl
length-hex_of (b ∷ p) = omega (arith, length-hex_of p)

length-ascii_of : (p : List ℕ) → length (ascii_of p) ≡ length p
unfolding ascii_of
length-ascii_of [] = refl
length-ascii_of (b ∷ p) = omega (arith, length-ascii_of p)

row_loop-texts :
    (p hexbuf asciibuf : List ℕ)
    → length hexbuf + 3 * length p ≤ 48
    → row_loop p hexbuf asciibuf ≡ (hexbuf ++ hex_of p, asciibuf ++ ascii_of p)
unfolding row_loop hex_of ascii_of
row_loop-texts [] hexbuf asciibuf room = rw (append_nil hexbuf, append_nil asciibuf) refl
row_loop-texts (b ∷ p) hexbuf asciibuf room =
    let free : ltb (length hexbuf + 3) 49 ≡ true = ground arith in
    let three = nth hex_digits (b / 16 % 16) ∷ nth hex_digits (b % 16) ∷ 32 ∷ [] in
    rw free (
      row_loop-texts p (hexbuf ++ three) _ (omega (arith, length-append hexbuf three))
      ∙ rw (append_assoc hexbuf, append_assoc asciibuf) refl)

-- Of a row of at most 16 bytes, the hexadecimal text takes three characters for each byte, gives back the
-- bytes when it is read as such, and so fits its 49 places; the other text has a character for each byte.
pub row_loop-value :
    (p : List ℕ)
    → AllBytes p
    → length p ≤ 16
    → (row_value (row_loop p [] []).0 ≡ p)
      × (length (row_loop p [] []).0 ≡ 3 * length p)
      × (length (row_loop p [] []).1 ≡ length p)
row_loop-value p all short =
    rw (row_loop-texts p [] [] (omega arith))
      (row_value-hex_of p all, length-hex_of p, length-ascii_of p)
