-- ===== src/Memory.antt =====
-- lib/string.c: the functions on blocks of memory. Memory is a function from addresses to bytes, and
-- a block of `n` bytes at `d` is the addresses from `d` to below `d + n`, which do not wrap around.
-- The functions that write return the memory; the pointer that they return is their argument.
pub mod Copy
pub mod Search
use ccos.Common.{
  ℕ, zero, suc, ◌+◌, ◌-◌, not, ◌||◌, Option, none, some, ltb, leb, ◌==◌, if◌then◌else◌, ℤ, ◌%◌,
}
use ccos.Kernel.{update}

abbrev pub Mem : Type 0
Mem = ℕ → ℕ

-- The rounds of a copy upwards that are left; `i` is its counter.
pub copy_up : (d s n i : ℕ) → Mem → Mem
copy_up d s zero i m = m
copy_up d s (suc n) i m = copy_up d s n (i + 1) (update m (d + i) (m (s + i)))

-- A copy downwards; the counter of the source is `i`.
pub copy_down : (d s i : ℕ) → Mem → Mem
copy_down d s zero m = m
copy_down d s (suc i) m = copy_down d s i (update m (d + i) (m (s + i)))

unfoldable pub memmove : (dest src n : ℕ) → Mem → Mem
memmove dest src n m =
    if dest == src || n == 0
    then m
    else if ltb dest src
    then copy_up dest src n 0 m
    else copy_down dest src n m

unfoldable pub memcpy : (dest src n : ℕ) → Mem → Mem
memcpy dest src n m = copy_up dest src n 0 m

pub fill_up : (p value n i : ℕ) → Mem → Mem
fill_up p value zero i m = m
fill_up p value (suc n) i m = fill_up p value n (i + 1) (update m (p + i) value)

unfoldable pub memset : (s c n : ℕ) → Mem → Mem
memset s c n m = fill_up s (c % 256) n 0 m

-- The search from place `i` on.
pub chr_loop : (p uc n i : ℕ) → Mem → Option ℕ
chr_loop p uc zero i m = none
chr_loop p uc (suc n) i m =
    let rest = chr_loop p uc n (i + 1) m in if m (p + i) == uc then some (p + i) else rest

-- The address of the byte, or none for NULL.
unfoldable pub memchr : (s c n : ℕ) → Mem → Option ℕ
memchr s c n m = chr_loop s (c % 256) n 0 m

-- `(int)a - (int)b`
abbrev pub int_diff : ℕ → ℕ → ℤ
int_diff a b = if leb b a then ℤ.pos (a - b) else ℤ.negsuc (b - a - 1)

pub cmp_loop : (p1 p2 n i : ℕ) → Mem → ℤ
cmp_loop p1 p2 zero i m = ℤ.pos 0
cmp_loop p1 p2 (suc n) i m =
    let rest = cmp_loop p1 p2 n (i + 1) m in
    if not (m (p1 + i) == m (p2 + i)) then int_diff (m (p1 + i)) (m (p2 + i)) else rest

unfoldable pub memcmp : (s1 s2 n : ℕ) → Mem → ℤ
memcmp s1 s2 n m = cmp_loop s1 s2 n 0 m
