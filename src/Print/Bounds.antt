-- ===== src/Print/Bounds.antt =====
-- What `u_vsnprintf` of user/ulib_stdio.c leaves in its buffer.
use ccos.Common.{
  ℕ, zero, suc, ◌+◌, ◌≤◌, ◌<◌, ◌≡◌, refl, sym, ap, ◌∙◌, ◌⊎◌, inl, inr, Bool, true, false, not, ◌&&◌,
  some, List, [], ◌∷◌, ◌++◌, arith, ◌==◌, if◌then◌else◌, Bool-cases, length, nth, ◌-◌, ◌%◌, leb,
}
use ccos.Print.{
  Args, Out, out_char, put_text, put_pad, LengthMod, Directive, ends, percent, conversion,
  directive, Field, field, unsupported, format_arg, padding, put_field, put_conversion, print_loop,
  terminate, start, u_vsnprintf,
}
use ccos.Print.Directives.{Leaves, ended, doubled, converted, directive-Leaves, format_arg-ends}
use Prim.Native.Nat.{◌^◌}
use ccos.Memory.{Mem}

-- `n` copies of a character.
pub copies : (n ch : ℕ) → List ℕ
copies zero ch = []
copies (suc n) ch = ch ∷ copies n ch

put_text-append :
    (buf avail : ℕ) (xs ys : List ℕ) (o : Out)
    → put_text buf avail (xs ++ ys) o ≡ put_text buf avail ys (put_text buf avail xs o)
unfolding put_text
put_text-append buf avail [] ys o = refl
put_text-append buf avail (x ∷ xs) ys o = put_text-append buf avail xs ys (out_char buf avail x o)

put_pad-copies :
    (buf avail n ch : ℕ) (o : Out) → put_pad buf avail n ch o ≡ put_text buf avail (copies n ch) o
unfolding put_pad put_text copies
put_pad-copies buf avail zero ch o = refl
put_pad-copies buf avail (suc n) ch o = put_pad-copies buf avail n ch (out_char buf avail ch o)

-- The characters of a conversion, its padding included.
field_text : (left_adjust zero_pad : Bool) (width spec : ℕ) (str : List ℕ) → List ℕ
field_text left zeros width spec str =
    let pad_char = if zeros && not left && not (spec == 115) then 48 else 32 in
    let pad_len = padding width (length str) in
    if left then str ++ copies pad_len 32 else copies pad_len pad_char ++ str

conversion_text : (left_adjust : Bool) (width spec : ℕ) → Field → List ℕ × ℕ
conversion_text left width spec (field str zeros) = (field_text left zeros width spec str, 1)
conversion_text left width spec unsupported = (37 ∷ spec ∷ [], 0)

put_field-text :
    (buf avail : ℕ) (left zeros : Bool) (width spec : ℕ) (str : List ℕ) (o : Out)
    → put_field buf avail left zeros width spec str o
      ≡ put_text buf avail (field_text left zeros width spec str) o
unfolding put_field field_text
put_field-text buf avail true zeros width spec str o =
    put_pad-copies buf avail (padding width (length str)) 32 (put_text buf avail str o)
    ∙ sym (put_text-append buf avail str (copies (padding width (length str)) 32) o)
put_field-text buf avail false zeros width spec str o =
    let pad_char = if zeros && true && not (spec == 115) then 48 else 32 in
    ap (put_text buf avail str) (put_pad-copies buf avail (padding width (length str)) pad_char o)
    ∙ sym (put_text-append buf avail (copies (padding width (length str)) pad_char) str o)

put_conversion-text :
    (buf avail : ℕ) (left : Bool) (width spec : ℕ) (item : Field) (o : Out)
    → put_conversion buf avail left width spec item o ≡ (
      put_text buf avail (conversion_text left width spec item).0 o,
      (conversion_text left width spec item).1,
    )
unfolding put_conversion conversion_text put_text
put_conversion-text buf avail left width spec (field str zeros) o =
    ap (λ p. (p, 1)) (put_field-text buf avail left zeros width spec str o)
put_conversion-text buf avail left width spec unsupported o = refl

-- The loop ends from here, and writes the same text into every buffer.
abbrev Writes : (fuel : ℕ) (fmt : List ℕ) → Args → ℕ → Type 0
Writes fuel fmt args k =
    (text : List ℕ) × ((buf avail : ℕ) (o : Out)
      → print_loop fuel buf avail fmt args k o ≡ some (put_text buf avail text o))

module _ (fuel c : ℕ) (fmt : List ℕ) (args : Args) (k : ℕ) (hit : c == 37 ≡ true) where
  Writes-percent :
      (after : List ℕ)
      → directive fmt ≡ percent after
      → Writes fuel after args k
      → Writes (suc fuel) (c ∷ fmt) args k
  unfolding print_loop put_text
  Writes-percent after e (text, rest) =
      (37 ∷ text, λ buf avail o. rw (hit, e) (rest buf avail (out_char buf avail 37 o)))

  Writes-conversion :
      (left zeros : Bool) (width : ℕ) (len : LengthMod) (spec : ℕ) (after : List ℕ) (item : Field)
      → directive fmt ≡ conversion left zeros width len spec after
      → format_arg spec len zeros (args k) ≡ some item
      → Writes fuel after args (k + (conversion_text left width spec item).1)
      → Writes (suc fuel) (c ∷ fmt) args k
  unfolding print_loop
  Writes-conversion left zeros width len spec after item e found (text, rest) =
      let (str, used) = conversion_text left width spec item in
      (
        str ++ text,
        λ buf avail o.
            rw (hit, e, found, put_conversion-text buf avail left width spec item o)
              (rest buf avail (put_text buf avail str o)
                ∙ ap some (sym (put_text-append buf avail str text o))),
      )

  Writes-ends : directive fmt ≡ ends → Writes (suc fuel) (c ∷ fmt) args k
  unfolding print_loop put_text
  Writes-ends e = ([], λ buf avail o. rw (hit, e) refl)

Writes-plain :
    (fuel c : ℕ) (fmt : List ℕ) (args : Args) (k : ℕ)
    → c == 37 ≡ false
    → Writes fuel fmt args k
    → Writes (suc fuel) (c ∷ fmt) args k
unfolding print_loop put_text
Writes-plain fuel c fmt args k plain (text, rest) =
    (c ∷ text, λ buf avail o. rw plain (rest buf avail (out_char buf avail c o)))

Writes-nothing : (fuel : ℕ) (args : Args) (k : ℕ) → Writes (suc fuel) [] args k
unfolding print_loop put_text
Writes-nothing fuel args k = ([], λ buf avail o. refl)

after_percent :
    (fuel c : ℕ) (fmt : List ℕ) (args : Args) (k : ℕ)
    → c == 37 ≡ true
    → length fmt < fuel
    → ((rest : List ℕ) (j : ℕ) → length rest < fuel → Writes fuel rest args j)
    → (d : Directive) → directive fmt ≡ d
    → Leaves (length fmt) d
    → Writes (suc fuel) (c ∷ fmt) args k
after_percent fuel c fmt args k hit fits again _ e ended = Writes-ends fuel c fmt args k hit e
after_percent fuel c fmt args k hit fits again _ e (doubled after lt) =
    Writes-percent fuel c fmt args k hit after e (again after k (omega arith))
after_percent fuel c fmt args k hit fits again _ e (converted l z w len spec after lt) =
    let (item, found) = format_arg-ends spec len z (args k) in
    Writes-conversion fuel c fmt args k hit l z w len spec after item e found
      (again after (k + (conversion_text l w spec item).1) (omega arith))

print_loop-Writes :
    (fuel : ℕ) (fmt : List ℕ) (args : Args) (k : ℕ) → length fmt < fuel → Writes fuel fmt args k
print_loop-Writes zero fmt args k fits = absurd (omega arith)
print_loop-Writes (suc fuel) [] args k fits = Writes-nothing fuel args k
print_loop-Writes (suc fuel) (c ∷ fmt) args k fits = elim (Bool-cases (c == 37)) [
  | inl hit ↦
      after_percent fuel c fmt args k hit (omega arith)
        (λ rest j lt. print_loop-Writes fuel rest args j lt) (directive fmt) refl
        (directive-Leaves fmt)
  | inr plain ↦
      Writes-plain fuel c fmt args k plain (print_loop-Writes fuel fmt args k (omega arith))
]

-- What a text leaves in a buffer: its characters from `pos` on, while there is room for them.
put_text-pos :
    (buf avail : ℕ) (xs : List ℕ) (o : Out)
    → ((put_text buf avail xs o).pos ≡ o.pos + length xs)
      × ((put_text buf avail xs o).total ≡ o.total + length xs)
unfolding put_text
put_text-pos buf avail [] o = (omega arith, omega arith)
put_text-pos buf avail (x ∷ xs) o =
    let (p, t) = put_text-pos buf avail xs (out_char buf avail x o) in
    (p ∙ omega arith, t ∙ omega arith)

put_text-outside :
    (buf avail : ℕ) (xs : List ℕ) (o : Out) (a : ℕ)
    → (a < buf + o.pos) ⊎ ((buf + o.pos + length xs ≤ a) ⊎ (buf + avail ≤ a))
    → (put_text buf avail xs o).memory a ≡ o.memory a
unfolding put_text
put_text-outside buf avail [] o a out = refl
put_text-outside buf avail (x ∷ xs) o a out =
    ground (arith, put_text-outside buf avail xs (out_char buf avail x o) a)

put_text-nth :
    (buf avail : ℕ) (xs : List ℕ) (o : Out) (i : ℕ)
    → i < length xs
    → o.pos + i < avail
    → (put_text buf avail xs o).memory (buf + (o.pos + i)) ≡ nth xs i
unfolding put_text
put_text-nth buf avail [] o i lt room = absurd (omega arith)
put_text-nth buf avail (x ∷ xs) o zero lt room =
    put_text-outside buf avail xs (out_char buf avail x o) (buf + (o.pos + 0)) (inl (omega arith))
    ∙ ground arith
put_text-nth buf avail (x ∷ xs) o (suc i) lt room =
    let moved : buf + (o.pos + suc i) ≡ buf + (o.pos + 1 + i) = omega arith in
    ap (put_text buf avail xs (out_char buf avail x o)).memory moved
    ∙ put_text-nth buf avail xs (out_char buf avail x o) i (omega arith) (omega arith)

-- The memory after printing: what fits of the text stands in the buffer, with a NUL after it, and
-- nothing outside the buffer has changed.
pub record Holds (m m' : Mem) (buf size : ℕ) (text : List ℕ) : Type 0 where
  pub kept : (i : ℕ) → i < length text → i < size - 1 → m' (buf + i) ≡ nth text i
  pub nul :
      0 < size → m' (buf + (if leb (length text) (size - 1) then length text else size - 1)) ≡ 0
  pub outside : (a : ℕ) → (a < buf) ⊎ (buf + size ≤ a) → m' a ≡ m a

terminate-Holds :
    (buf size : ℕ) (text : List ℕ) (m : Mem) (o : Out)
    → o.pos ≡ length text
    → ((i : ℕ) → i < length text → i < size - 1 → o.memory (buf + i) ≡ nth text i)
    → ((a : ℕ) → (a < buf) ⊎ (buf + size ≤ a) → o.memory a ≡ m a)
    → Holds m (terminate buf size o).0 buf size text
unfolding terminate
terminate-Holds buf size text m o pos kept outside = record {
  kept = λ i lt room. ground (arith, kept i lt room);
  nul = λ some_room. ground arith;
  outside = λ a out. ground (arith, outside a out);
}

terminate-total :
    (buf size : ℕ) (text : List ℕ) (m : Mem)
    → (terminate buf size (put_text buf (size - 1) text (start m))).1 ≡ length text % 2 ^ 32
unfolding terminate
terminate-total buf size text m =
    ap (λ n. n % 2 ^ 32) ((put_text-pos buf (size - 1) text (start m)).1 ∙ omega arith)

put_text-Holds :
    (buf size : ℕ) (text : List ℕ) (m : Mem)
    → Holds m (terminate buf size (put_text buf (size - 1) text (start m))).0 buf size text
put_text-Holds buf size text m =
    terminate-Holds buf size text m (put_text buf (size - 1) text (start m))
      ((put_text-pos buf (size - 1) text (start m)).0 ∙ omega arith)
      (λ i lt room.
        let at_start : buf + i ≡ buf + (0 + i) = omega arith in
        ap (put_text buf (size - 1) text (start m)).memory at_start
        ∙ put_text-nth buf (size - 1) text (start m) i lt (omega arith))
      (λ a out. put_text-outside buf (size - 1) text (start m) a (ground arith))

-- For a format and its arguments there is one text such that `u_vsnprintf`, into a buffer of any size,
-- ends, answers the length of the text, puts what fits of the text into the buffer with a NUL after
-- it, and writes nothing outside the buffer.
pub u_vsnprintf-Holds :
    (fuel : ℕ) (fmt : List ℕ) (args : Args)
    → length fmt < fuel
    → (text : List ℕ) × ((buf size : ℕ) (m : Mem)
        → (m' : Mem) × ((u_vsnprintf fuel buf size fmt args m ≡ some (m', length text % 2 ^ 32))
            × Holds m m' buf size text))
unfolding u_vsnprintf
u_vsnprintf-Holds fuel fmt args fits =
    let (text, run) = print_loop-Writes fuel fmt args 0 fits in
    (
      text,
      λ buf size m.
          let m' = (terminate buf size (put_text buf (size - 1) text (start m))).0 in
          (
            m',
            (
              rw (u_vsnprintf, run buf (size - 1) (start m))
                  (ap (λ n. some (m', n)) (terminate-total buf size text m)),
              put_text-Holds buf size text m,
            ),
          ),
    )
