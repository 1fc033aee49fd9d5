-- ===== src/Common/Slices.antt =====
-- Parts of lists: what `take` and `drop` make of an append, and the last elements of a list.
use Prim.Native.Nat.{ℕ, zero, suc, ◌+◌, ◌-◌, ◌≤◌, ◌<◌}
use mathlib.Core.Path.{◌≡◌, refl, ap, sym, ◌∙◌}
use mathlib.Core.List.{List, [], ◌∷◌, ◌++◌}
use native.Mathlib.Omega.{arith}
use ccos.Common.Lists.{length, length-append, take, drop, nth}

module _ {ℓ} {A : Type ℓ} where
  pub append_nil : (xs : List A) → xs ++ [] ≡ xs
  append_nil [] = refl
  append_nil (x ∷ xs) = ap (λ ys. x ∷ ys) (append_nil xs)

  pub append_assoc : (xs ys zs : List A) → (xs ++ ys) ++ zs ≡ xs ++ (ys ++ zs)
  append_assoc [] ys zs = refl
  append_assoc (x ∷ xs) ys zs = ap (λ l. x ∷ l) (append_assoc xs ys zs)

  pub length-drop : (k : ℕ) (xs : List A) → length (drop k xs) ≡ length xs - k
  length-drop zero xs = omega arith
  length-drop (suc k) [] = omega arith
  length-drop (suc k) (x ∷ xs) = omega (arith, length-drop k xs)

  drop_nil : (k : ℕ) → drop {A = A} k [] ≡ []
  drop_nil zero = refl
  drop_nil (suc k) = refl

  pub drop-drop : (a b : ℕ) (xs : List A) → drop a (drop b xs) ≡ drop (a + b) xs
  drop-drop a zero xs = ap (λ n. drop n xs) (omega arith)
  drop-drop a (suc b) [] = drop_nil a ∙ sym (drop_nil (a + suc b))
  drop-drop a (suc b) (x ∷ xs) =
      let e : a + suc b ≡ suc (a + b) = omega arith in rw e (drop-drop a b xs)

  -- The front part is dropped within the first list, or reaches into the second.
  pub drop-append : (k : ℕ) (xs ys : List A) → k ≤ length xs → drop k (xs ++ ys) ≡ drop k xs ++ ys
  drop-append zero xs ys le = refl
  drop-append (suc k) [] ys le = absurd (omega arith)
  drop-append (suc k) (x ∷ xs) ys le = drop-append k xs ys (omega arith)

  pub drop-append_past : (k : ℕ) (xs ys : List A) → drop (length xs + k) (xs ++ ys) ≡ drop k ys
  drop-append_past k [] ys = ap (λ n. drop n ys) (omega arith)
  drop-append_past k (x ∷ xs) ys =
      let e : suc (length xs) + k ≡ suc (length xs + k) = omega arith in
      rw e (drop-append_past k xs ys)

  pub drop_all : (k : ℕ) (xs : List A) → length xs ≤ k → drop k xs ≡ []
  drop_all k [] le = drop_nil k
  drop_all zero (x ∷ xs) le = absurd (omega arith)
  drop_all (suc k) (x ∷ xs) le = drop_all k xs (omega arith)

  pub length-take : (k : ℕ) (xs : List A) → length (take k xs) ≤ length xs
  length-take zero xs = omega arith
  length-take (suc k) [] = omega arith
  length-take (suc k) (x ∷ xs) = omega (arith, length-take k xs)

  pub drop-length-take : (k : ℕ) (xs : List A) → drop (length (take k xs)) xs ≡ drop k xs
  drop-length-take zero xs = refl
  drop-length-take (suc k) [] = refl
  drop-length-take (suc k) (x ∷ xs) = drop-length-take k xs

  -- No more is taken than there is.
  pub take_all : (k : ℕ) (xs : List A) → length xs ≤ k → take k xs ≡ xs
  take_all zero [] le = refl
  take_all (suc k) [] le = refl
  take_all zero (x ∷ xs) le = absurd (omega arith)
  take_all (suc k) (x ∷ xs) le = ap (λ l. x ∷ l) (take_all k xs (omega arith))

  -- The last `n` elements.
  abbrev pub latest : ℕ → List A → List A
  latest n xs = drop (length xs - n) xs

  pub latest-short : (n : ℕ) (xs : List A) → length xs ≤ n → latest n xs ≡ xs
  latest-short n xs le = ap (λ k. drop k xs) {x = length xs - n} {y = 0} (omega arith)

  pub latest-append : (n : ℕ) (xs ys : List A) → n ≤ length ys → latest n (xs ++ ys) ≡ latest n ys
  latest-append n xs ys le =
      ap (λ k. drop k (xs ++ ys)) (omega (arith, length-append xs ys))
      ∙ drop-append_past (length ys - n) xs ys

pub nth-append : (xs ys : List ℕ) (i : ℕ) → i < length xs → nth (xs ++ ys) i ≡ nth xs i
nth-append [] ys i lt = absurd (omega arith)
nth-append (x ∷ xs) ys zero lt = refl
nth-append (x ∷ xs) ys (suc i) lt = nth-append xs ys i (omega arith)

pub nth-snoc : (xs : List ℕ) (c : ℕ) → nth (xs ++ c ∷ []) (length xs) ≡ c
nth-snoc [] c = refl
nth-snoc (x ∷ xs) c = nth-snoc xs c

-- What is taken from a place on begins with the element there.
pub take-drop :
    (n i : ℕ) (xs : List ℕ)
    → i < length xs
    → take (suc n) (drop i xs) ≡ nth xs i ∷ take n (drop (suc i) xs)
take-drop n i [] lt = absurd (omega arith)
take-drop n zero (x ∷ xs) lt = refl
take-drop n (suc i) (x ∷ xs) lt = take-drop n i xs (omega arith)
