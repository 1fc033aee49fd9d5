-- ===== src/Text/Compare.antt =====
-- The comparison and the copy of C strings in user/ulib_string.c.
use ccos.Common.{
  ℕ, zero, suc, ◌+◌, ◌<◌, ◌≡◌, refl, sym, ◌↔◌, ◌⊎◌, inl, inr, some, List, [], ◌∷◌, arith, ◌==◌,
  if◌then◌else◌, ℤ, ==_refl, Bool-cases, length,
}
use ccos.Kernel.{update}
use ccos.Memory.{Mem, int_diff}
use ccos.Text.{u_strcmp, u_strcpy}
use ccos.Text.Strings.{CString}
use mathlib.Core.Path.{subst}

-- The order of two strings by their first difference, a string before those that extend it.
pub compare_text : (xs ys : List ℕ) → ℤ
compare_text [] [] = ℤ.pos 0
compare_text [] (y ∷ ys) = int_diff 0 y
compare_text (x ∷ xs) [] = int_diff x 0
compare_text (x ∷ xs) (y ∷ ys) = if x == y then compare_text xs ys else int_diff x y

u_strcmp-compare :
    (fuel a b : ℕ) (m : Mem) (xs ys : List ℕ)
    → CString m a xs
    → CString m b ys
    → length xs < fuel
    → u_strcmp fuel a b m ≡ some (compare_text xs ys)
unfolding u_strcmp CString compare_text
u_strcmp-compare zero a b m xs ys at_a at_b fits = absurd (omega arith)
u_strcmp-compare (suc fuel) a b m [] [] at_a at_b fits = rw (at_a, at_b) refl
u_strcmp-compare (suc fuel) a b m [] (y ∷ ys) at_a (at_b, rest) fits = rw (at_a, at_b) refl
u_strcmp-compare (suc fuel) a b m (x ∷ xs) [] (at_a, (ne, rest)) at_b fits = ground arith
u_strcmp-compare (suc fuel) a b m (x ∷ xs) (y ∷ ys) (at_a, (ne, rest)) (at_b, (ne', rest')) fits =
    let next = u_strcmp-compare fuel (a + 1) (b + 1) m xs ys rest rest' (omega arith) in
    elim (Bool-cases (x == y)) [ inl e ↦ (ground (arith, next)) | inr e ↦ ground arith ]

int_diff-same : (x y : ℕ) → int_diff x y ≡ ℤ.pos 0 → x ≡ y
int_diff-same x y e = ground arith

compare_text_refl : (xs : List ℕ) → compare_text xs xs ≡ ℤ.pos 0
unfolding compare_text
compare_text_refl [] = refl
compare_text_refl (x ∷ xs) = rw (==_refl x) (compare_text_refl xs)

compare_text-same :
    (a b : ℕ) (m : Mem) (xs ys : List ℕ)
    → CString m a xs
    → CString m b ys
    → compare_text xs ys ≡ ℤ.pos 0
    → xs ≡ ys
unfolding compare_text CString
compare_text-same a b m [] [] at_a at_b e = refl
compare_text-same a b m [] (y ∷ ys) at_a (at_b, (ne, rest)) e =
    absurd (ne (sym (int_diff-same 0 y e)))
compare_text-same a b m (x ∷ xs) [] (at_a, (ne, rest)) at_b e = absurd (ne (int_diff-same x 0 e))
compare_text-same a b m (x ∷ xs) (y ∷ ys) (at_a, (ne, rest)) (at_b, (ne', rest')) e =
    elim (Bool-cases (x == y)) [
      | inl hit ↦ ground (arith, compare_text-same (a + 1) (b + 1) m xs ys rest rest')
      | inr miss ↦ absurd (ground (arith, int_diff-same x y))
    ]

-- On two strings `u_strcmp` ends with their order, the difference of the first characters that are
-- not equal; and it is 0 just where the strings are the same.
pub u_strcmp-compare_text :
    (fuel a b : ℕ) (m : Mem) (xs ys : List ℕ)
    → CString m a xs
    → CString m b ys
    → length xs < fuel
    → (u_strcmp fuel a b m ≡ some (compare_text xs ys))
      × ((compare_text xs ys ≡ ℤ.pos 0) ↔ (xs ≡ ys))
u_strcmp-compare_text fuel a b m xs ys at_a at_b fits = (
  u_strcmp-compare fuel a b m xs ys at_a at_b fits,
  (
    compare_text-same a b m xs ys at_a at_b,
    λ e. subst (λ zs. compare_text xs zs ≡ ℤ.pos 0) e (compare_text_refl xs),
  ),
)

-- A string is not changed by a write before or after it.
pub CString-update :
    (m : Mem) (s d x : ℕ) (xs : List ℕ)
    → CString m s xs
    → (d < s) ⊎ (s + length xs < d)
    → CString (update m d x) s xs
unfolding CString
CString-update m s d x [] here apart = ground arith
CString-update m s d x (y ∷ ys) (here, (ne, rest)) apart =
    (ground arith, (ne, CString-update m (s + 1) d x ys rest (ground arith)))

-- The string lies apart from the block that it is copied to, so `u_strcpy` ends, the copy is the string,
-- and memory changes nowhere else.
pub u_strcpy-CString :
    (fuel d s : ℕ) (m : Mem) (xs : List ℕ)
    → CString m s xs
    → length xs < fuel
    → (d + length xs < s) ⊎ (s + length xs < d)
    → (m' : Mem) × ((u_strcpy fuel d s m ≡ some m')
        × (CString m' d xs × ((a : ℕ) → (a < d) ⊎ (d + length xs < a) → m' a ≡ m a)))
unfolding u_strcpy CString
u_strcpy-CString zero d s m xs here fits apart = absurd (omega arith)
u_strcpy-CString (suc fuel) d s m [] here fits apart =
    (update m d (m s), (rw here refl, (ground arith, λ a out. ground arith)))
u_strcpy-CString (suc fuel) d s m (x ∷ xs) (here, (ne, rest)) fits apart =
    let (m', (run, (copy, keep))) =
      u_strcpy-CString fuel (d + 1) (s + 1) (update m d (m s)) xs
        (CString-update m (s + 1) d (m s) xs rest (ground arith)) (omega arith) (ground arith) in
    (
      m',
      (
        ground (arith, run),
        ((ground (arith, keep d), (ne, copy)), λ a out. ground (arith, keep a)),
      ),
    )
