-- ===== src/Text.antt =====
-- The functions on C strings of lib/string.c, and user/ulib_string.c, whose functions on memory and
-- strings are the same code under names with `u_`. A loop that only a NUL ends runs on fuel and
-- answers none when that runs out; a function that may return NULL answers an option.
pub mod Strings
pub mod Compare
use ccos.Common.{ℕ, zero, suc, ◌+◌, not, ◌&&◌, Option, none, some, ◌==◌, if◌then◌else◌, ℤ, ◌%◌}
use ccos.Kernel.{update}
use ccos.Memory.{Mem, memmove, memcpy, fill_up, memset, int_diff, memcmp}

pub strlen_loop : (fuel s n : ℕ) → Mem → Option ℕ
strlen_loop zero s n m = none
strlen_loop (suc fuel) s n m =
    let rest = strlen_loop fuel s (n + 1) m in if not (m (s + n) == 0) then rest else some n

unfoldable pub strlen : (fuel s : ℕ) → Mem → Option ℕ
strlen fuel s m = strlen_loop fuel s 0 m

pub strnlen_loop : (rounds s i : ℕ) → Mem → ℕ
strnlen_loop zero s i m = i
strnlen_loop (suc rounds) s i m =
    let rest = strnlen_loop rounds s (i + 1) m in if not (m (s + i) == 0) then rest else i

unfoldable pub strnlen : (s maxlen : ℕ) → Mem → ℕ
strnlen s maxlen m = strnlen_loop maxlen s 0 m

-- What follows the loop of `strchr`, at the NUL.
pub at_end : (ch s : ℕ) (otherwise : Option ℕ) → Option ℕ
at_end ch s otherwise = if ch == 0 then some s else otherwise

pub strchr_loop : (fuel s ch : ℕ) → Mem → Option (Option ℕ)
strchr_loop zero s ch m = none
strchr_loop (suc fuel) s ch m =
    let rest = strchr_loop fuel (s + 1) ch m in
    if not (m s == 0) then (if m s == ch then some (some s) else rest) else some (at_end ch s none)

unfoldable pub strchr : (fuel s c : ℕ) → Mem → Option (Option ℕ)
strchr fuel s c m = strchr_loop fuel s (c % 256) m

pub strrchr_loop : (fuel s : ℕ) → Option ℕ → ℕ → Mem → Option (Option ℕ)
strrchr_loop zero s last ch m = none
strrchr_loop (suc fuel) s last ch m =
    let rest = strrchr_loop fuel (s + 1) (if m s == ch then some s else last) ch m in
    if not (m s == 0) then rest else some (at_end ch s last)

unfoldable pub strrchr : (fuel s c : ℕ) → Mem → Option (Option ℕ)
strrchr fuel s c m = strrchr_loop fuel s none (c % 256) m

abbrev pub u_memcpy : (dst src n : ℕ) → Mem → Mem
u_memcpy = memcpy

abbrev pub u_memmove : (dst src n : ℕ) → Mem → Mem
u_memmove = memmove

abbrev pub u_memset : (s c n : ℕ) → Mem → Mem
u_memset = memset

abbrev pub u_memcmp : (s1 s2 n : ℕ) → Mem → ℤ
u_memcmp = memcmp

abbrev pub u_strlen : (fuel s : ℕ) → Mem → Option ℕ
u_strlen = strlen

abbrev pub u_strchr : (fuel s c : ℕ) → Mem → Option (Option ℕ)
u_strchr = strchr

abbrev pub u_strrchr : (fuel s c : ℕ) → Mem → Option (Option ℕ)
u_strrchr = strrchr

unfoldable pub u_strcmp : (fuel a b : ℕ) → Mem → Option ℤ
u_strcmp zero a b m = none
u_strcmp (suc fuel) a b m =
    let rest = u_strcmp fuel (a + 1) (b + 1) m in
    if not (m a == 0) && (m a == m b) then rest else some (int_diff (m a) (m b))

pub strncmp_loop : (rounds a b i : ℕ) → Mem → ℤ
strncmp_loop zero a b i m = ℤ.pos 0
strncmp_loop (suc rounds) a b i m =
    let rest = strncmp_loop rounds a b (i + 1) m in
    if not (m (a + i) == m (b + i))
    then int_diff (m (a + i)) (m (b + i))
    else if m (a + i) == 0
    then ℤ.pos 0
    else rest

unfoldable pub u_strncmp : (a b n : ℕ) → Mem → ℤ
u_strncmp a b n m = strncmp_loop n a b 0 m

-- The byte is copied before it is tested.
pub u_strcpy : (fuel dst src : ℕ) → Mem → Option Mem
u_strcpy zero dst src m = none
u_strcpy (suc fuel) dst src m =
    let rest = u_strcpy fuel (dst + 1) (src + 1) (update m dst (m src)) in
    if not (m src == 0) then rest else some (update m dst (m src))

-- The first loop of `u_strncpy`; the second one is `fill_up` with 0 from where the first one ends.
pub strncpy_loop : (rounds dst src i : ℕ) → Mem → Mem
strncpy_loop zero dst src i m = m
strncpy_loop (suc rounds) dst src i m =
    let rest = strncpy_loop rounds dst src (i + 1) (update m (dst + i) (m (src + i))) in
    if not (m (src + i) == 0) then rest else fill_up dst 0 (suc rounds) i m

unfoldable pub u_strncpy : (dst src n : ℕ) → Mem → Mem
u_strncpy dst src n m = strncpy_loop n dst src 0 m
