-- ===== src/Platform/Output.antt =====
-- platform/qemu-virt-sbi: numbers and texts for the console (platform.c, uart_16550.c). The result is what
-- is handed to the transmitter, one character after the other.
pub mod Decimal
use ccos.Common.{
  ℕ, zero, suc, ◌+◌, ◌-◌, Option, none, some, List, [], ◌∷◌, ltb, leb, ◌==◌, if◌then◌else◌, ◌/◌,
  ◌^◌, ◌*◌, ◌%◌,
}

-- A carriage return goes in front of each line feed.
pub uart16550_write : List ℕ → List ℕ
uart16550_write [] = []
uart16550_write (c ∷ buf) =
    if c == 10 then 13 ∷ c ∷ uart16550_write buf else c ∷ uart16550_write buf

-- The digits in `tmp`, which has room for `room` of them; none is a write behind it. The list is in the
-- order in which `buf` takes them.
pub dec_loop : (room x : ℕ) (tmp : List ℕ) → Option (List ℕ)
dec_loop zero x tmp = if x == 0 then some tmp else none
dec_loop (suc room) x tmp =
    let more = dec_loop room (x / 10) ((48 + (x - x / 10 * 10)) ∷ tmp) in
    if x == 0 then some tmp else more

pub platform_put_dec_us : ℕ → Option (List ℕ)
platform_put_dec_us x = if x == 0 then some (48 ∷ []) else dec_loop 20 x []

-- The 64 bits of a signed number.
pub platform_put_dec_s : ℕ → Option (List ℕ)
platform_put_dec_s v =
    if leb (2 ^ 63) v
    then (elim (platform_put_dec_us ((2 ^ 64 - 1 - v + 1) % 2 ^ 64)) [
      | none ↦ none
      | some cs ↦ some (45 ∷ cs)
    ])
    else platform_put_dec_us v

abbrev pub hex_char : ℕ → ℕ
hex_char nib = if ltb nib 10 then 48 + nib else 97 + (nib - 10)

-- The nibbles from the highest of `n` on.
pub hex_loop : (n x : ℕ) → List ℕ
hex_loop zero x = []
hex_loop (suc n) x = hex_char (x / 2 ^ (4 * n) % 16) ∷ hex_loop n x

pub platform_put_hex64 : ℕ → List ℕ
platform_put_hex64 x = 48 ∷ 120 ∷ hex_loop 16 x

pub uart16550_put_hex64 : ℕ → List ℕ
uart16550_put_hex64 x = hex_loop 16 x
