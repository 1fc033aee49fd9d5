-- ===== src/Lines/Exactly.antt =====
-- What `u_readn` of user/ulib_stdio.c returns.
use ccos.Common.{
  ℕ, zero, suc, ◌+◌, ◌≤◌, ◌≡◌, inl, inr, some, List, [], ◌∷◌, arith, ltb, ℤ, Bool-cases,
}
use ccos.Lines.{readn_loop}

-- No call of `read` returns more than it was asked for.
pub AreShort : (nbytes total : ℕ) → List ℤ → Type 0
AreShort nbytes total [] = Unit {0}
AreShort nbytes total (ℤ.negsuc e ∷ ns) = Unit {0}
AreShort nbytes total (ℤ.pos n ∷ ns) = (total + n ≤ nbytes) × AreShort nbytes (total + n) ns

-- A count is at most what was asked for.
pub readn_loop-le :
    (nbytes total : ℕ) (ns : List ℤ) (t : ℕ)
    → total ≤ nbytes
    → AreShort nbytes total ns
    → readn_loop nbytes total ns ≡ some (ℤ.pos t)
    → (total ≤ t) × (t ≤ nbytes)
unfolding readn_loop AreShort
readn_loop-le nbytes total [] t le short e = ground arith
readn_loop-le nbytes total (ℤ.negsuc n ∷ ns) t le short e = ground arith
readn_loop-le nbytes total (ℤ.pos zero ∷ ns) t le short e = ground arith
readn_loop-le nbytes total (ℤ.pos (suc n) ∷ ns) t le (fits, short) e =
    elim (Bool-cases (ltb total nbytes)) [
      | inl more ↦
          let (low, high) =
            readn_loop-le nbytes (total + suc n) ns t (omega arith) short (rw more at e) in
          (omega arith, high)
      | inr full ↦ ground arith
    ]
