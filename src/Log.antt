-- ===== src/Log.antt =====
-- lib/log.c: the formatter of the log. The destination is the list of the characters before its NUL,
-- so that `pos` is its length; the format is the list of its characters before the NUL, and a result of
-- its own stands for a read behind that NUL. The loop over the format runs on fuel.
pub mod Format
pub mod Ring
pub mod Line
pub mod Hexdump
use ccos.Common.{
  ℕ, zero, suc, ◌+◌, ◌-◌, ap, Bool, false, not, ◌&&◌, ◌||◌, Option, List, [], ◌∷◌, ◌++◌, ltb, leb,
  ◌==◌, if◌then◌else◌, length, ◌%◌,
}
use ccos.Number.{is_negative, negate}
use ccos.Print.{
  Slot, Args, LengthMod, len_none, read_width, read_second, signed_arg, unsigned_arg, upper,
  string_or_null, padding,
}
use Prim.Native.Nat.{◌/◌, ◌^◌}

abbrev pub log_append_char : (max c : ℕ) → List ℕ → List ℕ
log_append_char max c buf = if ltb (length buf) (max - 1) then buf ++ (c ∷ []) else buf

-- The loop of `log_append_str`, which stops when the buffer is full.
unfoldable pub append_all : (max : ℕ) → List ℕ → List ℕ → List ℕ
append_all max [] buf = buf
append_all max (c ∷ s) buf =
    let rest = append_all max s (buf ++ (c ∷ [])) in
    if ltb (length buf) (max - 1) then rest else buf

abbrev pub log_append_str : (max : ℕ) → Option (List ℕ) → List ℕ → List ℕ
log_append_str max s buf = append_all max (string_or_null s) buf

abbrev pub log_digit : (upper : Bool) → ℕ → ℕ
log_digit upper digit =
    if ltb digit 10 then 48 + digit else (if upper then 65 else 97) + (digit - 10)

-- `tmp` from its last digit on; its 32 places bound the loop.
unfoldable pub log_digits : (places v base : ℕ) (upper : Bool) → List ℕ → List ℕ
log_digits zero v base upper tmp = tmp
log_digits (suc places) v base upper tmp =
    let more = log_digits places (v / base) base upper (log_digit upper (v % base) ∷ tmp) in
    if v == 0 then tmp else more

unfoldable pub log_pad : (max pad_count pad : ℕ) → List ℕ → List ℕ
log_pad max zero pad buf = buf
log_pad max (suc n) pad buf =
    let rest = log_pad max n pad (buf ++ (pad ∷ [])) in
    if ltb (length buf) (max - 1) then rest else buf

unfoldable pub log_append_uint : (max v base : ℕ) (upper : Bool) (width pad : ℕ) → List ℕ → List ℕ
log_append_uint max v base upper width pad buf =
    let tmp = if v == 0 then 48 ∷ [] else log_digits 32 v base upper [] in
    append_all max tmp (log_pad max (padding width (length tmp)) pad buf)

-- `l` or `ll`.
unfoldable pub read_longs : List ℕ → LengthMod × List ℕ
read_longs [] = (len_none, [])
read_longs (c ∷ p) = if c == 108 then read_second p else (len_none, c ∷ p)

-- The `0` of a width.
unfoldable pub read_pad : List ℕ → ℕ × List ℕ
read_pad [] = (32, [])
read_pad (c ∷ p) = if c == 48 then (48, p) else (32, c ∷ p)

-- A negative number: its sign, and a place less to fill.
unfoldable pub log_append_int : (max v width pad : ℕ) → List ℕ → List ℕ
log_append_int max v width pad dst =
    if is_negative v
    then log_append_uint max (negate v) 10 false
        (if ltb 0 width && ltb width (2 ^ 31) then width - 1 else width) pad
        (log_append_char max 45 dst)
    else log_append_uint max v 10 false width pad dst

-- The `switch`: what a conversion appends, and the number of arguments that it takes.
unfoldable pub log_conversion : (max spec pad width : ℕ) → LengthMod → Slot → List ℕ → List ℕ × ℕ
log_conversion max spec pad width len arg dst =
    if spec == 115
    then (log_append_str max arg.text dst, 1)
    else if spec == 99
    then (log_append_char max (arg.bits % 256) dst, 1)
    else if spec == 100 || spec == 105
    then (log_append_int max (signed_arg len arg.bits) width pad dst, 1)
    else if spec == 117
    then (log_append_uint max (unsigned_arg len arg.bits) 10 false width pad dst, 1)
    else if spec == 120 || spec == 88
    then (log_append_uint max (unsigned_arg len arg.bits) 16 (spec == 88) width pad dst, 1)
    else if spec == 112
    then (
      log_append_uint max (arg.bits % 2 ^ 64) 16 false 0 32 (append_all max (48 ∷ 120 ∷ []) dst),
      1,
    )
    else (log_append_char max spec (log_append_char max 37 dst), 0)

pub data Formatted : Type 0 where
  out_of_fuel : Formatted
  overrun : Formatted
  text : (dst : List ℕ) → Formatted

-- What stands behind a `%`; at the NUL there is no conversion to end, and the loop steps over it.
pub data LogItem : Type 0 where
  past_end : LogItem
  a_percent : (after : List ℕ) → LogItem
  an_item : (spec pad width : ℕ) (len : LengthMod) (after : List ℕ) → LogItem

unfoldable pub item_of : (pad width : ℕ) → LengthMod × List ℕ → LogItem
item_of pad width (len, []) = past_end
item_of pad width (len, spec ∷ after) = an_item spec pad width len after

unfoldable pub log_item : List ℕ → LogItem
log_item [] = past_end
log_item (c ∷ p) =
    let (pad, wide) = read_pad (c ∷ p) in
    let (width, rest) = read_width 0 wide in
    if c == 37 then a_percent p else item_of pad width (read_longs rest)

unfoldable pub format_loop : (fuel max : ℕ) (p : List ℕ) → Args → (ap : ℕ) → List ℕ → Formatted
format_loop zero max p args ap dst = out_of_fuel
format_loop (suc fuel) max [] args ap dst = text dst
format_loop (suc fuel) max (c ∷ p) args ap dst =
    let plain = format_loop fuel max p args ap (log_append_char max c dst) in
    if leb (max - 1) (length dst)
    then text dst
    else if not (c == 37)
    then plain
    else elim (log_item p) [
      | past_end ↦ overrun
      | a_percent after ↦ format_loop fuel max after args ap (log_append_char max 37 dst)
      | an_item spec pad width len after ↦
          let (dst', used) = log_conversion max spec pad width len (args ap) dst in
          format_loop fuel max after args (ap + used) dst'
    ]

unfoldable pub log_vformat : (fuel dst_size : ℕ) (fmt : List ℕ) → Args → Formatted
log_vformat fuel dst_size fmt args = format_loop fuel dst_size fmt args 0 []
