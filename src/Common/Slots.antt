-- ===== src/Common/Slots.antt =====
-- The search of an array for the first index that passes a test, as a `for` loop with a `return` does it.
use Prim.Native.Nat.{ℕ, zero, suc, ◌+◌, ◌≤◌, ◌<◌}
use mathlib.Core.Path.{◌≡◌, sym, subst}
use mathlib.Core.Logic.{inl, inr}
use mathlib.Core.Bool.{Bool, true, false}
use mathlib.Core.Option.{Option, none, some}
use native.Mathlib.Omega.{arith}
use ccos.Common.Tests.{if◌then◌else◌, ◌==◌, Bool-cases, ==_iff}

-- The `n` rounds from `i` on.
unfoldable pub first_from : (n i : ℕ) → (ℕ → Bool) → Option ℕ
first_from zero i test = none
first_from (suc n) i test = let rest = first_from n (i + 1) test in if test i then some i else rest

-- What the search answers: no index passes, or the one that is found does and none before it.
pub data IsFound (n i : ℕ) (test : ℕ → Bool) : Option ℕ → Type 0 where
  none_passes : ((j : ℕ) → i ≤ j → j < i + n → test j ≡ false) → IsFound n i test none
  first_passes :
      (w : ℕ)
      → i ≤ w
      → w < i + n
      → test w ≡ true
      → ((j : ℕ) → i ≤ j → j < w → test j ≡ false)
      → IsFound n i test (some w)

IsFound-later :
    (n i : ℕ) (test : ℕ → Bool) (o : Option ℕ)
    → test i ≡ false
    → IsFound n (i + 1) test o
    → IsFound (suc n) i test o
IsFound-later n i test _ miss (none_passes all) = none_passes λ j low high.
    elim (Bool-cases (j == i)) [
      | inl here ↦ subst (λ k. test k ≡ false) (sym ((==_iff j i).0 here)) miss
      | inr other ↦ all j (ground arith) (omega arith)
    ]
IsFound-later n i test _ miss (first_passes w low high hit all) =
    first_passes w (omega arith) (omega arith) hit λ j le lt. elim (Bool-cases (j == i)) [
      | inl here ↦ subst (λ k. test k ≡ false) (sym ((==_iff j i).0 here)) miss
      | inr other ↦ all j (ground arith) (omega arith)
    ]

pub first_from-IsFound : (n i : ℕ) (test : ℕ → Bool) → IsFound n i test (first_from n i test)
unfolding first_from
first_from-IsFound zero i test = none_passes λ j low high. absurd (omega arith)
first_from-IsFound (suc n) i test = elim (Bool-cases (test i)) [
  | inl hit ↦
      rw hit (first_passes i (omega arith) (omega arith) hit (λ j le lt. absurd (omega arith)))
  | inr miss ↦ rw miss (IsFound-later n i test _ miss (first_from-IsFound n (i + 1) test))
]
