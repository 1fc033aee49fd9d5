-- ===== src/Memory/Copy.antt =====
-- What `memmove`, `memcpy` and `memset` of lib/string.c leave in memory.
use ccos.Common.{
  ℕ, zero, suc, ◌+◌, ◌-◌, ◌≤◌, ◌≡◌, sym, ◌∙◌, ◌⊎◌, inl, inr, Bool, true, ◌&&◌, ◌||◌, arith, ltb,
  leb, ◌==◌, if◌then◌else◌, Bool-cases, ◌%◌,
}
use ccos.Kernel.{update}
use ccos.Memory.{Mem, copy_up, copy_down, memmove, memcpy, fill_up, memset}
use mathlib.Core.Path.{fun_ext}

-- The address lies in the block of `n` bytes at `d`.
abbrev pub within : (d n a : ℕ) → Bool
within d n a = leb d a && ltb a (d + n)

-- Going up, the source must not lie below the destination and overlap it.
copy_up-within :
    (d s n i : ℕ) (m : Mem) (a : ℕ)
    → (d ≤ s) ⊎ (s + i + n ≤ d + i)
    → copy_up d s n i m a ≡ (if within (d + i) n a then m (s + (a - d)) else m a)
unfolding copy_up
copy_up-within d s zero i m a apart = ground arith
copy_up-within d s (suc n) i m a apart =
    ground (arith, copy_up-within d s n (i + 1) (update m (d + i) (m (s + i))) a)

-- Going down, the source must not lie above the destination.
copy_down-within :
    (d s n : ℕ) (m : Mem) (a : ℕ)
    → s ≤ d
    → copy_down d s n m a ≡ (if within d n a then m (s + (a - d)) else m a)
unfolding copy_down
copy_down-within d s zero m a below = ground arith
copy_down-within d s (suc n) m a below =
    ground (arith, copy_down-within d s n (update m (d + n) (m (s + n))) a below)

copy_up_all :
    (d s n : ℕ) (m : Mem) (a : ℕ)
    → (d ≤ s) ⊎ (s + n ≤ d)
    → copy_up d s n 0 m a ≡ (if within d n a then m (s + (a - d)) else m a)
copy_up_all d s n m a (inl below) = ground (arith, copy_up-within d s n 0 m a (inl below))
copy_up_all d s n m a (inr before) = ground (arith, copy_up-within d s n 0 m a)

memmove-stays :
    (d s n : ℕ) (m : Mem) (a : ℕ)
    → (d == s || n == 0) ≡ true
    → m a ≡ (if within d n a then m (s + (a - d)) else m a)
memmove-stays d s n m a stay = ground arith

-- `memmove` puts the old bytes of the source block, in order, where the destination block is, however
-- the two overlap, and changes nothing outside it.
pub memmove-within :
    (d s n : ℕ) (m : Mem) (a : ℕ)
    → memmove d s n m a ≡ (if within d n a then m (s + (a - d)) else m a)
unfolding memmove
memmove-within d s n m a = elim (Bool-cases (d == s || n == 0)) [
  | inl stay ↦ ground (arith, memmove-stays d s n m a)
  | inr move ↦ elim (Bool-cases (ltb d s)) [
    | inl up ↦ ground (arith, copy_up_all d s n m a)
    | inr down ↦ ground (arith, copy_down-within d s n m a)
  ]
]

-- `memcpy` is `memmove` where the source does not begin below the destination and reach into it.
pub memcpy-memmove :
    (d s n : ℕ) (m : Mem) → (d ≤ s) ⊎ (s + n ≤ d) → memcpy d s n m ≡ memmove d s n m
unfolding memcpy
memcpy-memmove d s n m apart =
    fun_ext λ a. copy_up_all d s n m a apart ∙ sym (memmove-within d s n m a)

fill_up-within :
    (p v n i : ℕ) (m : Mem) (a : ℕ) → fill_up p v n i m a ≡ (if within (p + i) n a then v else m a)
unfolding fill_up
fill_up-within p v zero i m a = ground arith
fill_up-within p v (suc n) i m a =
    ground (arith, fill_up-within p v n (i + 1) (update m (p + i) v) a)

-- `memset` puts the low byte of its argument into every byte of the block and nowhere else.
pub memset-within :
    (s c n : ℕ) (m : Mem) (a : ℕ) → memset s c n m a ≡ (if within s n a then c % 256 else m a)
unfolding memset
memset-within s c n m a = ground (arith, fill_up-within s (c % 256) n 0 m a)
