-- ===== src/Memory/Search.antt =====
-- What `memchr` and `memcmp` of lib/string.c answer.
use ccos.Common.{
  ℕ, zero, suc, ◌+◌, ◌-◌, ◌<◌, ◌≡◌, sym, ◌≢◌, inl, inr, Option, none, some, arith, leb, ◌==◌, ℤ,
  ==_iff, Bool-cases, ◌%◌,
}
use ccos.Memory.{Mem, chr_loop, memchr, int_diff, cmp_loop, memcmp}
use mathlib.Core.Path.{subst}

-- The first place that holds the byte, counted from `p`.
pub data FirstAt (m : Mem) (p n c : ℕ) : Option ℕ → Type 0 where
  found :
      (i : ℕ)
      → i < n
      → m (p + i) ≡ c
      → ((j : ℕ) → j < i → m (p + j) ≢ c)
      → FirstAt m p n c (some (p + i))
  absent : ((j : ℕ) → j < n → m (p + j) ≢ c) → FirstAt m p n c none

pub extend :
    (i : ℕ) (m : Mem) (p c : ℕ)
    → ((j : ℕ) → j < i → m (p + j) ≢ c)
    → m (p + i) ≢ c
    → (j : ℕ) → j < i + 1
    → m (p + j) ≢ c
extend i m p c before here j lt = elim (Bool-cases (j == i)) [
  | inl e ↦ subst (λ k. m (p + k) ≢ c) (sym ((==_iff j i).0 e)) here
  | inr ne ↦ before j (ground arith)
]

chr_loop-FirstAt :
    (p c n i : ℕ) (m : Mem)
    → ((j : ℕ) → j < i → m (p + j) ≢ c)
    → FirstAt m p (i + n) c (chr_loop p c n i m)
unfolding chr_loop
chr_loop-FirstAt p c zero i m before = absent λ j lt. before j (omega arith)
chr_loop-FirstAt p c (suc n) i m before = elim (Bool-cases (m (p + i) == c)) [
  | inl hit ↦ rw hit (found i (omega arith) ((==_iff (m (p + i)) c).0 hit) before)
  | inr miss ↦ rw miss (
      subst (λ k. FirstAt m p k c (chr_loop p c n (i + 1) m)) (omega arith)
        (chr_loop-FirstAt p c n (i + 1) m (extend i m p c before (ground arith))))
]

-- `memchr` answers the first place of the block that holds the low byte of its argument, and NULL
-- only if none does.
pub memchr-FirstAt : (s c n : ℕ) (m : Mem) → FirstAt m s n (c % 256) (memchr s c n m)
unfolding memchr
memchr-FirstAt s c n m =
    subst (λ k. FirstAt m s k (c % 256) (chr_loop s (c % 256) n 0 m)) (omega arith)
      (chr_loop-FirstAt s (c % 256) n 0 m λ j lt. absurd (omega arith))

-- The outcome of a comparison: the blocks agree, or they agree up to a place where the difference
-- of the bytes has the sign of the result.
pub data Compared (m : Mem) (p q n : ℕ) : ℤ → Type 0 where
  equal : ((j : ℕ) → j < n → m (p + j) ≡ m (q + j)) → Compared m p q n (ℤ.pos 0)
  above :
      (i d : ℕ)
      → i < n
      → ((j : ℕ) → j < i → m (p + j) ≡ m (q + j))
      → 0 < d
      → m (p + i) ≡ m (q + i) + d
      → Compared m p q n (ℤ.pos d)
  below :
      (i d : ℕ)
      → i < n
      → ((j : ℕ) → j < i → m (p + j) ≡ m (q + j))
      → m (p + i) + d + 1 ≡ m (q + i)
      → Compared m p q n (ℤ.negsuc d)

extend_same :
    (i : ℕ) (m : Mem) (p q : ℕ)
    → ((j : ℕ) → j < i → m (p + j) ≡ m (q + j))
    → m (p + i) ≡ m (q + i)
    → (j : ℕ) → j < i + 1
    → m (p + j) ≡ m (q + j)
extend_same i m p q before here j lt = elim (Bool-cases (j == i)) [
  | inl e ↦ subst (λ k. m (p + k) ≡ m (q + k)) (sym ((==_iff j i).0 e)) here
  | inr ne ↦ before j (ground arith)
]

differ :
    (p q n i : ℕ) (m : Mem)
    → i < n
    → ((j : ℕ) → j < i → m (p + j) ≡ m (q + j))
    → m (p + i) ≢ m (q + i)
    → Compared m p q n (int_diff (m (p + i)) (m (q + i)))
differ p q n i m lt before ne = elim (Bool-cases (leb (m (q + i)) (m (p + i)))) [
  | inl more ↦ rw more (above i (m (p + i) - m (q + i)) lt before (ground arith) (ground arith))
  | inr less ↦ rw less (below i (m (q + i) - m (p + i) - 1) lt before (ground arith))
]

cmp_loop-Compared :
    (p q n i : ℕ) (m : Mem)
    → ((j : ℕ) → j < i → m (p + j) ≡ m (q + j))
    → Compared m p q (i + n) (cmp_loop p q n i m)
unfolding cmp_loop
cmp_loop-Compared p q zero i m before = equal λ j lt. before j (omega arith)
cmp_loop-Compared p q (suc n) i m before = elim (Bool-cases (m (p + i) == m (q + i))) [
  | inl same_byte ↦ rw same_byte (
      subst (λ k. Compared m p q k (cmp_loop p q n (i + 1) m)) (omega arith)
        (cmp_loop-Compared p q n (i + 1) m
          (extend_same i m p q before ((==_iff (m (p + i)) (m (q + i))).0 same_byte))))
  | inr other ↦ rw other (differ p q (i + suc n) i m (omega arith) before (ground arith))
]

-- `memcmp` answers 0 just where the blocks agree, and otherwise the difference of the first two bytes
-- that are not equal.
pub memcmp-Compared : (p q n : ℕ) (m : Mem) → Compared m p q n (memcmp p q n m)
unfolding memcmp
memcmp-Compared p q n m =
    subst (λ k. Compared m p q k (cmp_loop p q n 0 m)) (omega arith)
      (cmp_loop-Compared p q n 0 m λ j lt. absurd (omega arith))
