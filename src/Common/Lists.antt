-- ===== src/Common/Lists.antt =====
-- Lists of thread numbers: length, last entry, membership, distinct entries, removal.
use Prim.Native.Nat.{ℕ, zero, suc, ◌+◌, ◌-◌, ◌<◌}
use mathlib.Core.Path.{◌≡◌, refl, ap}
use mathlib.Core.Bool.{Bool, true, false, ◌||◌}
use mathlib.Core.List.{List, [], ◌∷◌, ◌++◌}
use mathlib.Core.Option.{Option, none, some}
use native.Mathlib.Omega.{arith}
use ccos.Common.Tests.{◌==◌, if◌then◌else◌}

module _ {ℓ} {A : Type ℓ} where
  abbrev pub length : List A → ℕ
  length [] = 0
  length (x ∷ xs) = suc (length xs)

  pub length-append : (xs ys : List A) → length (xs ++ ys) ≡ length xs + length ys
  length-append [] ys = omega arith
  length-append (x ∷ xs) ys = omega (arith, length-append xs ys)

  abbrev pub take : ℕ → List A → List A
  take zero xs = []
  take (suc n) [] = []
  take (suc n) (x ∷ xs) = x ∷ take n xs

  abbrev pub drop : ℕ → List A → List A
  drop zero xs = xs
  drop (suc n) [] = []
  drop (suc n) (x ∷ xs) = drop n xs

  abbrev pub get_last_or : List A → A → A
  get_last_or [] d = d
  get_last_or (x ∷ xs) d = get_last_or xs x

  -- The last entry, if there is one.
  abbrev pub get_last? : List A → Option A
  get_last? [] = none
  get_last? (x ∷ xs) = some (get_last_or xs x)

  pub get_last_or-append : (xs : List A) (y d : A) → get_last_or (xs ++ y ∷ []) d ≡ y
  get_last_or-append [] y d = refl
  get_last_or-append (x ∷ xs) y d = get_last_or-append xs y x

  pub get_last?-append : (xs : List A) (y : A) → get_last? (xs ++ y ∷ []) ≡ some y
  get_last?-append [] y = refl
  get_last?-append (x ∷ xs) y = ap some (get_last_or-append xs y x)

abbrev pub mem : ℕ → List ℕ → Bool
mem a [] = false
mem a (x ∷ xs) = (a == x) || mem a xs

-- No number stands in the list twice.
abbrev pub Distinct : List ℕ → Type 0
Distinct [] = Unit {0}
Distinct (x ∷ xs) = (mem x xs ≡ false) × Distinct xs

-- The list without its first `a`.
abbrev pub erase : ℕ → List ℕ → List ℕ
erase a [] = []
erase a (x ∷ xs) = if x == a then xs else x ∷ erase a xs

pub mem-append : (a : ℕ) (xs ys : List ℕ) → mem a (xs ++ ys) ≡ (mem a xs || mem a ys)
mem-append a [] ys = refl
mem-append a (x ∷ xs) ys = ground (arith, mem-append a xs ys)

pub Distinct-append :
    (xs : List ℕ) (y : ℕ) → Distinct xs → mem y xs ≡ false → Distinct (xs ++ y ∷ [])
Distinct-append [] y d h = (refl, tt)
Distinct-append (x ∷ xs) y d h =
    (ground (arith, mem-append x xs (y ∷ [])), Distinct-append xs y d.1 (ground arith))

pub mem-erase :
    (a b : ℕ) (xs : List ℕ)
    → Distinct xs
    → mem a (erase b xs) ≡ (if a == b then false else mem a xs)
mem-erase a b [] d = ground arith
mem-erase a b (x ∷ xs) d = ground (arith, mem-erase a b xs d.1)

pub Distinct-erase : (b : ℕ) (xs : List ℕ) → Distinct xs → Distinct (erase b xs)
Distinct-erase b [] d = tt
Distinct-erase b (x ∷ xs) d = ground (arith, mem-erase x b xs d.1, Distinct-erase b xs d.1)

pub length-erase :
    (b : ℕ) (xs : List ℕ) → length (erase b xs) ≡ (if mem b xs then length xs - 1 else length xs)
length-erase b [] = refl
length-erase b (x ∷ xs) = ground (arith, length-erase b xs, length_of_mem b xs)
  where
    length_of_mem : (b : ℕ) (xs : List ℕ) → mem b xs ≡ true → 0 < length xs
    length_of_mem b [] h = absurd (ground arith)
    length_of_mem b (x ∷ xs) h = omega arith

-- An element of an array; one past the end is never used.
abbrev pub nth : List ℕ → ℕ → ℕ
nth [] i = 0
nth (x ∷ xs) zero = x
nth (x ∷ xs) (suc i) = nth xs i

module _ {ℓ} {A : Type ℓ} where
  -- The element at an index, if there is one.
  abbrev pub get_elem? : List A → ℕ → Option A
  get_elem? [] i = none
  get_elem? (x ∷ xs) zero = some x
  get_elem? (x ∷ xs) (suc i) = get_elem? xs i

  -- What is appended moves no element.
  pub get_elem?-append :
      (xs ys : List A) (i : ℕ) {x : A} → get_elem? xs i ≡ some x → get_elem? (xs ++ ys) i ≡ some x
  get_elem?-append [] ys i e = absurd (ground arith)
  get_elem?-append (y ∷ xs) ys zero e = e
  get_elem?-append (y ∷ xs) ys (suc i) e = get_elem?-append xs ys i e
