-- ===== src/Log/Hexdump.antt =====
-- lib/log.c: `log_hexdump`, which logs a line for every 16 bytes. The bytes are a list of `len` elements;
-- the rounds of the loop are its fuel.
pub mod Rows
pub mod Dumped
use ccos.Common.{
  ℕ, zero, suc, ◌+◌, Bool, ◌&&◌, Option, none, some, List, [], ◌∷◌, ◌++◌, ltb, leb, ◌==◌,
  if◌then◌else◌, codes, length, take, drop, nth, ◌/◌, ◌%◌, ◌^◌,
}
use ccos.Print.{Slot, Args}
use ccos.Log.{text}
use ccos.Log.Line.{Logger, LogRun, no_fuel, reads_on, returned, is_silent, log_printf}

abbrev pub log_isprint : ℕ → Bool
log_isprint c = leb 32 c && leb c 126

abbrev pub hex_digits : List ℕ
hex_digits = codes "0123456789ABCDEF"

-- `hexbuf` and `asciibuf` after the bytes of a row; the first has 49 places.
unfoldable pub row_loop : List ℕ → (hexbuf asciibuf : List ℕ) → List ℕ × List ℕ
row_loop [] hexbuf asciibuf = (hexbuf, asciibuf)
row_loop (b ∷ p) hexbuf asciibuf =
    row_loop p
      (if ltb (length hexbuf + 3) 49
        then hexbuf ++ nth hex_digits (b / 16 % 16) ∷ nth hex_digits (b % 16) ∷ 32 ∷ []
        else hexbuf)
      (asciibuf ++ (if log_isprint b then b else 46) ∷ [])

-- "%s%X: %s |%s|"
abbrev pub row_format : List ℕ
row_format = codes "%s%X: %s |%s|"

abbrev text_slot : List ℕ → Slot
text_slot s = record { bits = 0; text = some s }

-- The prefix, which is empty for NULL, the offset as an `unsigned`, and the two texts.
pub row_args : (prefix : Option (List ℕ)) (offset : ℕ) (hexbuf asciibuf : List ℕ) → Args
row_args prefix offset hexbuf asciibuf i =
    if i == 0
    then text_slot (elim prefix [ none ↦ [] | some s ↦ s ])
    else if i == 1
    then record { bits = offset % 2 ^ 32; text = none }
    else if i == 2
    then text_slot hexbuf
    else text_slot asciibuf

-- What follows a call of the log that returned.
abbrev pub continue : LogRun → (Logger → LogRun) → LogRun
continue no_fuel f = no_fuel
continue reads_on f = reads_on
continue (returned n l) f = f l

pub dump_loop :
    (rounds level : ℕ) (file : Option (List ℕ)) (line : ℕ) (func prefix : Option (List ℕ))
    (offset : ℕ) (p : List ℕ)
    → Logger
    → LogRun
dump_loop zero level file line func prefix offset p l = no_fuel
dump_loop (suc rounds) level file line func prefix offset [] l = returned 0 l
dump_loop (suc rounds) level file line func prefix offset (b ∷ p) l =
    let chunk = take 16 (b ∷ p) in
    let (hexbuf, asciibuf) = row_loop chunk [] [] in
    continue
      (log_printf 14 level file line func row_format (row_args prefix offset hexbuf asciibuf) l)
      (dump_loop rounds level file line func prefix (offset + length chunk) (drop 16 (b ∷ p)))

-- The function returns nothing, which the 0 stands for.
pub log_hexdump :
    (rounds level : ℕ) (file : Option (List ℕ)) (line : ℕ) (func : Option (List ℕ)) (bytes : List ℕ)
    (prefix : Option (List ℕ))
    → Logger
    → LogRun
log_hexdump rounds level file line func bytes prefix l =
    if is_silent level l
    then returned 0 l
    else dump_loop rounds level file line func prefix 0 bytes l
