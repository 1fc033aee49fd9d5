-- ===== src/Log/Format.antt =====
-- The bounds of the formatter of lib/log.c, and the format with which it runs out of its string.
pub mod Complete
use ccos.Common.{
  ℕ, zero, suc, ◌+◌, ◌-◌, ◌≤◌, ◌<◌, ◌≡◌, refl, inl, inr, Bool, true, false, ◌||◌, List, [], ◌∷◌,
  ◌++◌, arith, ltb, leb, ◌==◌, if◌then◌else◌, Bool-cases, length, length-append, ◌%◌,
}
use ccos.Number.{is_negative, negate}
use ccos.Print.{
  Slot, Args, LengthMod, read_width, signed_arg, unsigned_arg, upper, string_or_null, padding,
}
use ccos.Print.Directives.{read_width-shorter, read_second-shorter}
use ccos.Log.{
  log_append_char, append_all, log_digits, log_pad, log_append_uint, read_longs, read_pad,
  log_append_int, log_conversion, Formatted, overrun, text, LogItem, past_end, a_percent, an_item,
  item_of, log_item, format_loop, log_vformat,
}
use Prim.Native.Nat.{◌^◌}

-- The text and its NUL fit.
abbrev pub Fits : ℕ → List ℕ → Type 0
Fits max buf = length buf < max

pub log_append_char-Fits :
    (max c : ℕ) (buf : List ℕ) → Fits max buf → Fits max (log_append_char max c buf)
log_append_char-Fits max c buf fits = ground (arith, length-append buf (c ∷ []))

pub append_all-Fits : (max : ℕ) (s buf : List ℕ) → Fits max buf → Fits max (append_all max s buf)
unfolding append_all
append_all-Fits max [] buf fits = fits
append_all-Fits max (c ∷ s) buf fits = elim (Bool-cases (ltb (length buf) (max - 1))) [
  | inl room ↦
      rw room (append_all-Fits max s (buf ++ (c ∷ [])) (ground (arith, length-append buf (c ∷ []))))
  | inr full ↦ rw full fits
]

log_pad-Fits : (max n pad : ℕ) (buf : List ℕ) → Fits max buf → Fits max (log_pad max n pad buf)
unfolding log_pad
log_pad-Fits max zero pad buf fits = fits
log_pad-Fits max (suc n) pad buf fits = elim (Bool-cases (ltb (length buf) (max - 1))) [
  | inl room ↦
      rw room
        (log_pad-Fits max n pad (buf ++ (pad ∷ [])) (ground (arith, length-append buf (pad ∷ []))))
  | inr full ↦ rw full fits
]

pub log_append_uint-Fits :
    (max v base : ℕ) (upper : Bool) (width pad : ℕ) (buf : List ℕ)
    → Fits max buf
    → Fits max (log_append_uint max v base upper width pad buf)
unfolding log_append_uint
log_append_uint-Fits max v base upper width pad buf fits =
    let tmp = if v == 0 then 48 ∷ [] else log_digits 32 v base upper [] in
    append_all-Fits max tmp (log_pad max (padding width (length tmp)) pad buf)
      (log_pad-Fits max (padding width (length tmp)) pad buf fits)

pub if_Fits :
    (max : ℕ) (b : Bool) (x y : List ℕ) → Fits max x → Fits max y → Fits max (if b then x else y)
if_Fits max true x y p q = p
if_Fits max false x y p q = q

log_append_int-Fits :
    (max v width pad : ℕ) (dst : List ℕ)
    → Fits max dst
    → Fits max (log_append_int max v width pad dst)
unfolding log_append_int
log_append_int-Fits max v width pad dst fits =
    if_Fits max (is_negative v) _ _
      (log_append_uint-Fits max (negate v) 10 false _ pad (log_append_char max 45 dst)
        (log_append_char-Fits max 45 dst fits))
      (log_append_uint-Fits max v 10 false width pad dst fits)

pair_Fits :
    (max : ℕ) (b : Bool) (x y : List ℕ × ℕ)
    → Fits max x.0
    → Fits max y.0
    → Fits max (if b then x else y).0
pair_Fits max true x y p q = p
pair_Fits max false x y p q = q

log_conversion-Fits :
    (max spec pad width : ℕ) (len : LengthMod) (arg : Slot) (dst : List ℕ)
    → Fits max dst
    → Fits max (log_conversion max spec pad width len arg dst).0
unfolding log_conversion
log_conversion-Fits max spec pad width len arg dst fits =
    pair_Fits max (spec == 115) _ _ (append_all-Fits max (string_or_null arg.text) dst fits) (
      pair_Fits max (spec == 99) _ _ (log_append_char-Fits max (arg.bits % 256) dst fits) (
        pair_Fits max (spec == 100 || spec == 105) _ _
          (log_append_int-Fits max (signed_arg len arg.bits) width pad dst fits)
          (pair_Fits max (spec == 117) _ _
            (log_append_uint-Fits max (unsigned_arg len arg.bits) 10 false width pad dst fits)
            (pair_Fits max (spec == 120 || spec == 88) _ _
              (log_append_uint-Fits max (unsigned_arg len arg.bits) 16 (spec == 88) width pad dst
                fits)
              (pair_Fits max (spec == 112) _ _
                (log_append_uint-Fits max (arg.bits % 2 ^ 64) 16 false 0 32
                  (append_all max (48 ∷ 120 ∷ []) dst)
                  (append_all-Fits max (48 ∷ 120 ∷ []) dst fits))
                (log_append_char-Fits max spec (log_append_char max 37 dst)
                  (log_append_char-Fits max 37 dst fits)))))))

-- The outcomes of the formatter.
pub data IsFormatted (max : ℕ) : Formatted → Type 0 where
  fits : (dst : List ℕ) → length dst < max → IsFormatted max (text dst)
  overruns : IsFormatted max overrun

read_pad-shorter : (p : List ℕ) → length (read_pad p).1 ≤ length p
unfolding read_pad
read_pad-shorter [] = omega arith
read_pad-shorter (c ∷ p) = ground arith

read_longs-shorter : (p : List ℕ) → length (read_longs p).1 ≤ length p
unfolding read_longs
read_longs-shorter [] = omega arith
read_longs-shorter (c ∷ p) = ground (arith, read_second-shorter p)

-- At most `n` characters follow.
data Follows (n : ℕ) : LogItem → Type 0 where
  nothing : Follows n past_end
  one_more : (after : List ℕ) → length after ≤ n → Follows n (a_percent after)
  item :
      (spec pad width : ℕ) (len : LengthMod) (after : List ℕ)
      → length after ≤ n
      → Follows n (an_item spec pad width len after)

item_of-Follows :
    (n pad width : ℕ) (r : LengthMod × List ℕ) → length r.1 ≤ n → Follows n (item_of pad width r)
unfolding item_of
item_of-Follows n pad width (len, []) short = nothing
item_of-Follows n pad width (len, spec ∷ after) short = item spec pad width len after (omega arith)

log_item-Follows : (p : List ℕ) → Follows (length p) (log_item p)
unfolding log_item
log_item-Follows [] = nothing
log_item-Follows (c ∷ p) =
    let wide = (read_pad (c ∷ p)).1 in
    let rest = (read_width 0 wide).1 in
    elim (Bool-cases (c == 37)) [
      | inl e ↦ rw e (one_more p (omega arith))
      | inr e ↦ rw e (
          item_of-Follows (length (c ∷ p)) (read_pad (c ∷ p)).0 (read_width 0 wide).0
            (read_longs rest)
            (omega (
              arith,
              read_longs-shorter rest,
              read_width-shorter 0 wide,
              read_pad-shorter (c ∷ p),
            )))
    ]

-- Every shorter format is formatted.
abbrev Again : (fuel max : ℕ) → Args → Type 0
Again fuel max args =
    (p : List ℕ) (k : ℕ) (dst : List ℕ)
    → length p < fuel
    → length dst < max
    → IsFormatted max (format_loop fuel max p args k dst)

after_percent :
    (fuel max c : ℕ) (p : List ℕ) (args : Args) (k : ℕ) (dst : List ℕ)
    → leb (max - 1) (length dst) ≡ false
    → c == 37 ≡ true
    → length p < fuel
    → length dst < max
    → Again fuel max args
    → (i : LogItem) → log_item p ≡ i
    → Follows (length p) i
    → IsFormatted max (format_loop (suc fuel) max (c ∷ p) args k dst)
unfolding format_loop
after_percent fuel max c p args k dst room hit deep fit again _ e nothing =
    rw (room, hit, e) overruns
after_percent fuel max c p args k dst room hit deep fit again _ e (one_more after short) =
    rw (room, hit, e)
      (again after k (log_append_char max 37 dst) (omega arith)
        (log_append_char-Fits max 37 dst fit))
after_percent fuel max c p args k dst room hit deep fit again _ e
      (item spec pad width len after short) =
    let out = log_conversion max spec pad width len (args k) dst in
    rw (room, hit, e)
      (again after (k + out.1) out.0 (omega arith)
        (log_conversion-Fits max spec pad width len (args k) dst fit))

format_loop-IsFormatted : (fuel max : ℕ) (args : Args) → Again fuel max args
unfolding format_loop
format_loop-IsFormatted zero max args p k dst deep fit = absurd (omega arith)
format_loop-IsFormatted (suc fuel) max args [] k dst deep fit = fits dst fit
format_loop-IsFormatted (suc fuel) max args (c ∷ p) k dst deep fit =
    elim (Bool-cases (leb (max - 1) (length dst))) [
      | inl full ↦ rw full (fits dst fit)
      | inr room ↦ elim (Bool-cases (c == 37)) [
        | inl hit ↦
            after_percent fuel max c p args k dst room hit (omega arith) fit
              (λ q j d deep' fit'. format_loop-IsFormatted fuel max args q j d deep' fit')
              (log_item p) refl (log_item-Follows p)
        | inr plain ↦
            rw (room, plain)
              (format_loop-IsFormatted fuel max args p k (log_append_char max c dst) (omega arith)
                (log_append_char-Fits max c dst fit))
      ]
    ]

-- With more fuel than the format has characters, and room for a NUL, `log_vformat` ends, with a text that
-- fits its buffer with the NUL, unless it reads behind the format.
pub log_vformat-IsFormatted :
    (fuel size : ℕ) (fmt : List ℕ) (args : Args)
    → length fmt < fuel
    → 0 < size
    → IsFormatted size (log_vformat fuel size fmt args)
unfolding log_vformat
log_vformat-IsFormatted fuel size fmt args deep some_room =
    format_loop-IsFormatted fuel size args fmt 0 [] deep some_room

-- None of the characters begins a conversion.
unfoldable pub IsPlain : List ℕ → Type 0
IsPlain [] = Unit {0}
IsPlain (c ∷ p) = (c == 37 ≡ false) × IsPlain p

format_loop-overruns :
    (fuel max : ℕ) (p : List ℕ) (args : Args) (k : ℕ) (dst : List ℕ)
    → IsPlain p
    → length p + 1 < fuel
    → length dst + length p < max - 1
    → format_loop fuel max (p ++ (37 ∷ [])) args k dst ≡ overrun
unfolding format_loop IsPlain log_item
format_loop-overruns zero max p args k dst plain deep room = absurd (omega arith)
format_loop-overruns (suc fuel) max [] args k dst plain deep room =
    let left : leb (max - 1) (length dst) ≡ false = ground arith in rw left refl
format_loop-overruns (suc fuel) max (c ∷ p) args k dst (first, plain) deep room =
    let left : leb (max - 1) (length dst) ≡ false = ground arith in
    let free : ltb (length dst) (max - 1) ≡ true = ground arith in
    rw (left, first, free)
      (format_loop-overruns fuel max p args k (dst ++ (c ∷ [])) plain (omega arith)
        (omega (arith, length-append dst (c ∷ []))))

-- A format that ends with a `%`, for which there is room, is read behind its end.
pub log_vformat-overruns :
    (fuel size : ℕ) (p : List ℕ) (args : Args)
    → IsPlain p
    → length p + 1 < fuel
    → length p + 1 < size
    → log_vformat fuel size (p ++ (37 ∷ [])) args ≡ overrun
unfolding log_vformat
log_vformat-overruns fuel size p args plain deep room =
    format_loop-overruns fuel size p args 0 [] plain deep (omega arith)
