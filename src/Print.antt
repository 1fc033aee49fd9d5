-- ===== src/Print.antt =====
-- user/ulib_stdio.c: formatted output. The format is the list of its characters before the NUL, and
-- the arguments are the slots that `va_arg` steps through, each with its 64 bits and, for a pointer to
-- a string, that string (none is NULL). The buffer lies in memory; `int` wraps at 32 bits, while the
-- sizes, which are 64 bits, count characters and do not. The loop over the format runs on fuel.
pub mod Directives
pub mod Bounds
pub mod Stdout
use ccos.Common.{
  ℕ, zero, suc, ◌+◌, ◌-◌, ap, Bool, true, false, not, ◌&&◌, ◌||◌, Option, none, some, List, [], ◌∷◌,
  ltb, leb, ◌==◌, if◌then◌else◌, codes, length, ◌%◌,
}
use ccos.Kernel.{null, update}
use ccos.Memory.{Mem}
use ccos.Number.{u_itoa, u_isdigit_ch}
use Prim.Native.Nat.{◌*◌, ◌^◌}

pub record Slot : Type 0 where
  pub bits : ℕ
  pub text : Option (List ℕ)

abbrev pub Args : Type 0
Args = ℕ → Slot

-- The buffer, `pos` and `total`.
pub record Out : Type 0 where
  pub memory : Mem
  pub pos : ℕ
  pub total : ℕ

abbrev pub out_char : (buf avail ch : ℕ) → Out → Out
out_char buf avail ch o = record {
  memory = if ltb o.pos avail then update o.memory (buf + o.pos) ch else o.memory;
  pos = o.pos + 1;
  total = o.total + 1;
}

-- `for (size_t i = 0; i < len; ++i) out_char(..., str[i]);`
pub put_text : (buf avail : ℕ) (str : List ℕ) → Out → Out
put_text buf avail [] o = o
put_text buf avail (ch ∷ str) o = put_text buf avail str (out_char buf avail ch o)

-- `for (size_t i = 0; i < pad_len; ++i) out_char(..., pad_char);`
pub put_pad : (buf avail pad_len pad_char : ℕ) → Out → Out
put_pad buf avail zero pad_char o = o
put_pad buf avail (suc n) pad_char o = put_pad buf avail n pad_char (out_char buf avail pad_char o)

pub data LengthMod : Type 0 where
  len_none len_l len_ll len_z : LengthMod

-- The flags, with those found so far, and what follows them.
pub read_flags : (left zeros : Bool) → List ℕ → Bool × (Bool × List ℕ)
read_flags left zeros [] = (left, (zeros, []))
read_flags left zeros (c ∷ fmt) =
    let dash = read_flags true zeros fmt in
    let nought = read_flags left true fmt in
    if c == 45 then dash else if c == 48 then nought else (left, (zeros, c ∷ fmt))

unfoldable pub read_width : (width : ℕ) → List ℕ → ℕ × List ℕ
read_width width [] = (width, [])
read_width width (c ∷ fmt) =
    let more = read_width ((width * 10 + (c - 48)) % 2 ^ 32) fmt in
    if u_isdigit_ch c then more else (width, c ∷ fmt)

pub skip_digits : List ℕ → List ℕ
skip_digits [] = []
skip_digits (c ∷ fmt) = if u_isdigit_ch c then skip_digits fmt else c ∷ fmt

pub skip_precision : List ℕ → List ℕ
skip_precision [] = []
skip_precision (c ∷ fmt) = if c == 46 then skip_digits fmt else c ∷ fmt

-- A second `l`.
pub read_second : List ℕ → LengthMod × List ℕ
read_second [] = (len_l, [])
read_second (c ∷ fmt) = if c == 108 then (len_ll, fmt) else (len_l, c ∷ fmt)

pub read_length : List ℕ → LengthMod × List ℕ
read_length [] = (len_none, [])
read_length (c ∷ fmt) =
    if c == 108 then read_second fmt else if c == 122 then (len_z, fmt) else (len_none, c ∷ fmt)

-- What stands after a `%`: the end of the format, another `%`, or a conversion.
pub data Directive : Type 0 where
  ends : Directive
  percent : (after : List ℕ) → Directive
  conversion :
      (left_adjust zero_pad : Bool) (width : ℕ) (length_mod : LengthMod) (spec : ℕ) (after : List ℕ)
      → Directive

pub read_spec : (left zeros : Bool) (width : ℕ) → LengthMod × List ℕ → Directive
read_spec left zeros width (modifier, []) = ends
read_spec left zeros width (modifier, spec ∷ after) =
    conversion left zeros width modifier spec after

pub directive : List ℕ → Directive
directive [] = ends
directive (c ∷ fmt) =
    let (left, (zeros, after)) = read_flags false false (c ∷ fmt) in
    let (width, rest) = read_width 0 after in
    if c == 37 then percent fmt else read_spec left zeros width (read_length (skip_precision rest))

-- `int` to `long long`.
abbrev pub sign_extend : ℕ → ℕ
sign_extend v = if ltb (v % 2 ^ 32) (2 ^ 31) then v % 2 ^ 32 else v % 2 ^ 32 + (2 ^ 64 - 2 ^ 32)

unfoldable pub signed_arg : LengthMod → ℕ → ℕ
signed_arg len_none v = sign_extend v
signed_arg len_l v = v % 2 ^ 64
signed_arg len_ll v = v % 2 ^ 64
signed_arg len_z v = v % 2 ^ 64

pub unsigned_arg : LengthMod → ℕ → ℕ
unsigned_arg len_none v = v % 2 ^ 32
unsigned_arg len_l v = v % 2 ^ 64
unsigned_arg len_ll v = v % 2 ^ 64
unsigned_arg len_z v = v % 2 ^ 64

pub upper : List ℕ → List ℕ
upper [] = []
upper (c ∷ str) = (if leb 97 c && leb c 102 then c - (97 - 65) else c) ∷ upper str

abbrev pub string_or_null : Option (List ℕ) → List ℕ
string_or_null s = elim s [ none ↦ codes "(null)" | some cs ↦ cs ]

-- The characters of a conversion, or none for a specifier that is not supported.
pub data Field : Type 0 where
  field : (str : List ℕ) (zero_pad : Bool) → Field
  unsupported : Field

abbrev pub number_field : Option (List ℕ) → (List ℕ → List ℕ) → Bool → Option Field
number_field str f zero_pad = elim str [ none ↦ none | some cs ↦ some (field (f cs) zero_pad) ]

-- The `switch`; the outer none is for `u_itoa` out of fuel.
unfoldable pub format_arg : (spec : ℕ) → LengthMod → (zero_pad : Bool) → Slot → Option Field
format_arg spec modifier zero_pad arg =
    if spec == 99
    then some (field (arg.bits % 256 ∷ []) zero_pad)
    else if spec == 115
    then some (field (string_or_null arg.text) false)
    else if spec == 100 || spec == 105
    then number_field (u_itoa 64 (signed_arg modifier arg.bits) 10 true) (λ cs. cs) zero_pad
    else if spec == 117
    then number_field (u_itoa 64 (unsigned_arg modifier arg.bits) 10 false) (λ cs. cs) zero_pad
    else if spec == 120
    then number_field (u_itoa 64 (unsigned_arg modifier arg.bits) 16 false) (λ cs. cs) zero_pad
    else if spec == 88
    then number_field (u_itoa 64 (unsigned_arg modifier arg.bits) 16 false) upper zero_pad
    else if spec == 112
    then number_field (u_itoa 64 (arg.bits % 2 ^ 64) 16 false) (λ cs. 48 ∷ 120 ∷ cs) false
    else some unsupported

-- `width` is an `int`, so a value at or above the half is not positive.
abbrev pub padding : (width len : ℕ) → ℕ
padding width len = if ltb 0 width && ltb width (2 ^ 31) && ltb len width then width - len else 0

unfoldable pub put_field :
    (buf avail : ℕ) (left_adjust zero_pad : Bool) (width spec : ℕ) (str : List ℕ) → Out → Out
put_field buf avail left_adjust zero_pad width spec str o =
    let pad_char = if zero_pad && not left_adjust && not (spec == 115) then 48 else 32 in
    let pad_len = padding width (length str) in
    if left_adjust
    then put_pad buf avail pad_len 32 (put_text buf avail str o)
    else put_text buf avail str (put_pad buf avail pad_len pad_char o)

-- The result of a conversion and the number of slots that it took.
unfoldable pub put_conversion :
    (buf avail : ℕ) (left_adjust : Bool) (width spec : ℕ) → Field → Out → Out × ℕ
put_conversion buf avail left_adjust width spec (field str zero_pad) o =
    (put_field buf avail left_adjust zero_pad width spec str o, 1)
put_conversion buf avail left_adjust width spec unsupported o =
    (out_char buf avail spec (out_char buf avail 37 o), 0)

pub print_loop : (fuel buf avail : ℕ) (fmt : List ℕ) → Args → (ap : ℕ) → Out → Option Out
print_loop zero buf avail fmt args ap o = none
print_loop (suc fuel) buf avail [] args ap o = some o
print_loop (suc fuel) buf avail (c ∷ fmt) args ap o =
    let plain = print_loop fuel buf avail fmt args ap (out_char buf avail c o) in
    if not (c == 37) then plain else elim (directive fmt) [
      | ends ↦ some o
      | percent after ↦ print_loop fuel buf avail after args ap (out_char buf avail 37 o)
      | conversion left_adjust zero_pad width modifier spec after ↦
          elim (format_arg spec modifier zero_pad (args ap)) [
            | none ↦ none
            | some item ↦
                let (o', used) = put_conversion buf avail left_adjust width spec item o in
                print_loop fuel buf avail after args (ap + used) o'
          ]
    ]

-- The NUL, and the length that there was to write, as an `int`.
unfoldable pub terminate : (buf size : ℕ) → Out → Mem × ℕ
terminate buf size o =
    let avail = size - 1 in
    let term = if leb o.pos avail then o.pos else avail in
    (if ltb 0 size then update o.memory (buf + term) 0 else o.memory, o.total % 2 ^ 32)

abbrev pub start : Mem → Out
start m = record { memory = m; pos = 0; total = 0 }

unfoldable pub u_vsnprintf : (fuel buf size : ℕ) (fmt : List ℕ) → Args → Mem → Option (Mem × ℕ)
u_vsnprintf fuel buf size fmt args m = elim (print_loop fuel buf (size - 1) fmt args 0 (start m)) [
  | none ↦ none
  | some o ↦ some (terminate buf size o)
]

abbrev pub u_snprintf : (fuel buf size : ℕ) (fmt : List ℕ) → Args → Mem → Option (Mem × ℕ)
u_snprintf = u_vsnprintf
