-- ===== src/Print/Stdout.antt =====
-- user/ulib_stdio.c: the functions that write to the standard output. What `write` answers is an
-- argument; the result has the characters that it is given.
pub mod Written
use ccos.Common.{
  ℕ, zero, suc, ◌+◌, ◌-◌, Bool, true, false, ◌||◌, Option, none, some, List, [], ◌∷◌, ◌++◌, ltb,
  leb, ◌==◌, if◌then◌else◌, ℤ, length, ◌^◌, ◌%◌,
}
use ccos.Print.{Args, u_vsnprintf}
use ccos.Memory.{Mem}
use ccos.Number.{int_of}

-- The `n` bytes at `a`.
pub bytes_at : Mem → (a n : ℕ) → List ℕ
bytes_at m a zero = []
bytes_at m a (suc n) = m a ∷ bytes_at m (a + 1) n

abbrev pub is_one : ℤ → Bool
is_one (ℤ.pos n) = n == 1
is_one (ℤ.negsuc n) = false

abbrev pub is_error : ℤ → Bool
is_error (ℤ.pos n) = false
is_error (ℤ.negsuc n) = true

pub u_putchar : (c : ℕ) (rc : ℤ) → ℤ × List ℕ
u_putchar c rc = (if is_one rc then int_of c else ℤ.negsuc 0, (c % 256) ∷ [])

pub u_puts : (s : List ℕ) (rc1 rc2 : ℤ) → ℤ × List ℕ
u_puts s rc1 rc2 = (
  if is_error rc1 || is_error rc2 then ℤ.negsuc 0 else int_of ((length s + 1) % 2 ^ 32),
  s ++ (10 ∷ []),
)

-- What is written of a text of the length `n` that there was to print, an `int`.
abbrev pub printed : (buf n : ℕ) → Mem → List ℕ
printed buf n m =
    if n == 0 || leb (2 ^ 31) n then [] else bytes_at m buf (if ltb n 256 then n else 255)

-- The result, and what is written, once the text has been put into `buf`.
abbrev pub write_out : (buf : ℕ) → Option (Mem × ℕ) → Option (ℤ × List ℕ)
write_out buf none = none
write_out buf (some (m, n)) = some (int_of n, printed buf n m)

-- `buf` is the array of 256 characters on the stack.
unfoldable pub u_printf : (fuel buf : ℕ) (fmt : List ℕ) → Args → Mem → Option (ℤ × List ℕ)
u_printf fuel buf fmt args m = write_out buf (u_vsnprintf fuel buf 256 fmt args m)
