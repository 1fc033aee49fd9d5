-- ===== src/Shell/Find.antt =====
-- The command table of user/shell.c: a name finds the first command that has it.
use ccos.Common.{
  ℕ, ◌+◌, ◌<◌, ◌≡◌, refl, ap, ◌≢◌, inl, inr, true, false, Option, none, some, List, [], ◌∷◌, arith,
  same, ℤ, ==_iff, Bool-cases, length,
}
use ccos.Memory.{Mem}
use ccos.Text.Strings.{CString}
use ccos.Text.Compare.{compare_text, u_strcmp-compare_text}
use ccos.Shell.{is_zero, find_loop, shell_find_cmd}
use mathlib.Core.Path.{subst}

-- The names of the table stand where its entries point.
unfoldable pub Names : Mem → List ℕ → List (List ℕ) → Type 0
Names m [] [] = Unit {0}
Names m [] (w ∷ ws) = ⊥
Names m (p ∷ ps) [] = ⊥
Names m (p ∷ ps) (w ∷ ws) = CString m p w × Names m ps ws

-- The first of the names, counted from `i`, that is the text.
pub data IsFirst (xs : List ℕ) : ℕ → List (List ℕ) → Option ℕ → Type 0 where
  nowhere : (i : ℕ) → IsFirst xs i [] none
  hit : (i : ℕ) (ws : List (List ℕ)) → IsFirst xs i (xs ∷ ws) (some i)
  later :
      (i : ℕ) (w : List ℕ) (ws : List (List ℕ)) (o : Option ℕ)
      → xs ≢ w
      → IsFirst xs (i + 1) ws o
      → IsFirst xs i (w ∷ ws) o

is_zero-pos : (z : ℤ) → is_zero z ≡ true → z ≡ ℤ.pos 0
is_zero-pos (ℤ.pos n) e = ap ℤ.pos ((==_iff n 0).0 e)
is_zero-pos (ℤ.negsuc n) e = absurd (ground arith)

not_same : {P : Type 0} (z : ℤ) → is_zero z ≡ false → (P → z ≡ ℤ.pos 0) → P → ⊥
not_same z other same p = absurd (ground (arith, ap is_zero (same p)))

find_loop-IsFirst :
    (fuel name i : ℕ) (table : List ℕ) (m : Mem) (xs : List ℕ) (ws : List (List ℕ))
    → CString m name xs
    → length xs < fuel
    → Names m table ws
    → (o : Option ℕ) × ((find_loop fuel name i table m ≡ some o) × IsFirst xs i ws o)
unfolding find_loop Names
find_loop-IsFirst fuel name i [] m xs [] here fits names = (none, (refl, nowhere i))
find_loop-IsFirst fuel name i [] m xs (w ∷ ws) here fits names = absurd names
find_loop-IsFirst fuel name i (p ∷ ps) m xs [] here fits names = absurd names
find_loop-IsFirst fuel name i (p ∷ ps) m xs (w ∷ ws) here fits (entry, names) =
    let (run, zero_iff) = u_strcmp-compare_text fuel name p m xs w here entry fits in
    let (o, (next, first)) = find_loop-IsFirst fuel name (i + 1) ps m xs ws here fits names in
    elim (Bool-cases (is_zero (compare_text xs w))) [
      | inl yes_hit ↦ (
        some i,
        (
          rw (find_loop, run, yes_hit) refl,
          subst (λ v. IsFirst xs i (v ∷ ws) (some i))
              (zero_iff.0 (is_zero-pos (compare_text xs w) yes_hit)) (hit i ws),
        ),
      )
      | inr no_hit ↦ (
        o,
        (
          rw (find_loop, run, no_hit) next,
          later i w ws o (not_same (compare_text xs w) no_hit zero_iff.1) first,
        ),
      )
    ]

-- `shell_find_cmd` ends, and answers the first command of the table whose name is the text, and NULL only
-- if none has it.
pub shell_find_cmd-IsFirst :
    (fuel name : ℕ) (table : List ℕ) (m : Mem) (xs : List ℕ) (ws : List (List ℕ))
    → CString m name xs
    → length xs < fuel
    → Names m table ws
    → (o : Option ℕ) × ((shell_find_cmd fuel name table m ≡ some o) × IsFirst xs 0 ws o)
unfolding shell_find_cmd
shell_find_cmd-IsFirst fuel name table m xs ws here fits names =
    find_loop-IsFirst fuel name 0 table m xs ws here fits names
