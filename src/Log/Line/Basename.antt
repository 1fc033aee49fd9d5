-- ===== src/Log/Line/Basename.antt =====
-- The name of a file that a line of the log prints (lib/log.c).
use ccos.Common.{
  ℕ, ◌≡◌, refl, sym, ◌∙◌, inl, inr, Bool, true, false, ◌||◌, List, [], ◌∷◌, ◌++◌, ◌==◌, Bool-cases,
  append_nil, append_assoc,
}
use ccos.Log.Line.{path_basename, strip_loop, file_to_print}

abbrev pub is_separator : ℕ → Bool
is_separator c = c == 47 || c == 92

-- None of the characters separates directories.
abbrev pub IsName : List ℕ → Type 0
IsName [] = Unit {0}
IsName (c ∷ p) = (is_separator c ≡ false) × IsName p

-- The path is empty or ends with a separator.
pub data IsDir : List ℕ → Type 0 where
  no_dir : IsDir []
  a_dir : (d : List ℕ) (c : ℕ) → is_separator c ≡ true → IsDir (d ++ c ∷ [])

IsName-snoc : (p : List ℕ) (c : ℕ) → IsName p → is_separator c ≡ false → IsName (p ++ c ∷ [])
IsName-snoc [] c name e = (e, tt)
IsName-snoc (x ∷ p) c (first, name) e = (first, IsName-snoc p c name e)

-- `seen` is what follows the last separator so far.
strip_loop-IsName :
    (dir seen p : List ℕ)
    → IsDir dir
    → IsName seen
    → (dir' : List ℕ) × (dir ++ (seen ++ p) ≡ dir' ++ strip_loop (seen ++ p) p)
      × IsDir dir'
      × IsName (strip_loop (seen ++ p) p)
unfolding strip_loop
strip_loop-IsName dir seen [] closed name = rw append_nil (dir, refl, closed, name)
strip_loop-IsName dir seen (c ∷ p) closed name =
    let shift : seen ++ c ∷ p ≡ (seen ++ c ∷ []) ++ p = sym (append_assoc seen (c ∷ []) p) in
    elim (Bool-cases (is_separator c)) [
      | inl sep ↦
          let (dir', e, closed', name') =
            strip_loop-IsName ((dir ++ seen) ++ c ∷ []) [] p (a_dir (dir ++ seen) c sep) tt in
          let all : dir ++ (seen ++ c ∷ p) ≡ ((dir ++ seen) ++ c ∷ []) ++ p =
            sym (append_assoc (dir ++ seen) (c ∷ []) p ∙ append_assoc dir seen (c ∷ p)) in
          rw sep (dir', all ∙ e, closed', name')
      | inr other ↦
          rw (other, shift)
            (strip_loop-IsName dir (seen ++ c ∷ []) p closed (IsName-snoc seen c name other))
    ]

-- What is printed of a path in the mode LOG_PATH_BASENAME is what stands behind its directories: it has
-- no separator, and what stands before it is empty or ends with one.
pub file_to_print-IsName :
    (file : List ℕ)
    → (dir : List ℕ) × (file ≡ dir ++ file_to_print path_basename file)
      × IsDir dir
      × IsName (file_to_print path_basename file)
unfolding file_to_print
file_to_print-IsName file = strip_loop-IsName [] [] file no_dir tt
