-- ===== src/Shell/Words.antt =====
-- The command line of user/shell.c: its arguments are the words of the line.
use ccos.Common.{
  ℕ, zero, suc, ◌+◌, ◌≤◌, ◌<◌, ◌≡◌, refl, ap, ◌∙◌, ◌⊎◌, inl, inr, false, Option, some, List, [],
  ◌∷◌, arith, ◌==◌, if◌then◌else◌, Bool-cases, length,
}
use ccos.Kernel.{update}
use ccos.Memory.{Mem}
use ccos.Text.Strings.{CString}
use ccos.Text.Compare.{CString-update}
use ccos.Shell.{is_blank, skip_blank, token_end, parse_loop, shell_parse_line}
use mathlib.Core.Path.{subst}

unfoldable pub word : List ℕ → List ℕ
word [] = []
word (c ∷ cs) = if is_blank c then [] else c ∷ word cs

unfoldable pub after_word : List ℕ → List ℕ
after_word [] = []
after_word (c ∷ cs) = if is_blank c then c ∷ cs else after_word cs

unfoldable pub drop_blanks : List ℕ → List ℕ
drop_blanks [] = []
drop_blanks (c ∷ cs) = if is_blank c then drop_blanks cs else c ∷ cs

-- Behind the character that ends the word.
unfoldable pub rest_of : List ℕ → List ℕ
rest_of [] = []
rest_of (c ∷ cs) = drop_blanks cs

-- The first `n` words of a text that does not begin with a blank.
unfoldable pub words : (n : ℕ) → List ℕ → List (List ℕ)
words zero xs = []
words (suc n) [] = []
words (suc n) (c ∷ cs) = word (c ∷ cs) ∷ words n (rest_of (after_word (c ∷ cs)))

-- The pointers are those of the strings.
unfoldable pub Argv : Mem → List ℕ → List (List ℕ) → Type 0
Argv m [] [] = Unit {0}
Argv m [] (w ∷ ws) = ⊥
Argv m (p ∷ ps) [] = ⊥
Argv m (p ∷ ps) (w ∷ ws) = CString m p w × Argv m ps ws

length-word : (xs : List ℕ) → length (word xs) + length (after_word xs) ≡ length xs
unfolding word after_word
length-word [] = omega arith
length-word (c ∷ cs) = ground (arith, length-word cs)

token_end-word :
    (fuel p : ℕ) (m : Mem) (xs : List ℕ)
    → CString m p xs
    → length xs < fuel
    → (token_end fuel p m ≡ some (p + length (word xs)))
      × CString m (p + length (word xs)) (after_word xs)
unfolding token_end word after_word CString
token_end-word zero p m xs here fits = absurd (omega arith)
token_end-word (suc fuel) p m [] here fits =
    (rw here (ap some (omega arith)), subst (λ q. m q ≡ 0) (omega arith) here)
token_end-word (suc fuel) p m (c ∷ cs) (here, (ne, rest)) fits = elim (Bool-cases (is_blank c)) [
  | inl blank ↦
      (ground arith, rw blank (subst (λ q. CString m q (c ∷ cs)) (omega arith) (here, (ne, rest))))
  | inr letter ↦
      let (run, left) = token_end-word fuel (p + 1) m cs rest (omega arith) in
      let moved : p + 1 + length (word cs) ≡ p + suc (length (word cs)) = omega arith in
      (ground (arith, run), rw letter (subst (λ q. CString m q (after_word cs)) moved left))
]

skip_blank-drop_blanks :
    (fuel p : ℕ) (m : Mem) (xs : List ℕ)
    → CString m p xs
    → length xs < fuel
    → (q : ℕ) × ((skip_blank fuel p m ≡ some q)
        × (CString m q (drop_blanks xs)
            × ((p ≤ q) × (q + length (drop_blanks xs) ≡ p + length xs))))
unfolding skip_blank drop_blanks CString
skip_blank-drop_blanks zero p m xs here fits = absurd (omega arith)
skip_blank-drop_blanks (suc fuel) p m [] here fits =
    (p, (rw here refl, (here, (omega arith, refl))))
skip_blank-drop_blanks (suc fuel) p m (c ∷ cs) (here, (ne, rest)) fits =
    elim (Bool-cases (is_blank c)) [
      | inl blank ↦
          let (q, (run, (left, (le, sum)))) =
            skip_blank-drop_blanks fuel (p + 1) m cs rest (omega arith) in
          (q, (ground (arith, run), (rw blank left, (omega arith, rw blank (omega arith)))))
      | inr letter ↦
          (p, (ground arith, (rw letter (here, (ne, rest)), (omega arith, rw letter refl))))
    ]

word-CString :
    (m : Mem) (p : ℕ) (xs : List ℕ)
    → CString m p xs
    → CString (update m (p + length (word xs)) 0) p (word xs)
unfolding word CString
word-CString m p [] here = ground arith
word-CString m p (c ∷ cs) (here, (ne, rest)) = elim (Bool-cases (is_blank c)) [
  | inl blank ↦ rw blank (ground arith)
  | inr letter ↦
      let moved : p + 1 + length (word cs) ≡ p + suc (length (word cs)) = omega arith in
      rw letter (
        ground arith,
        (
          ne,
          subst (λ q. CString (update m q 0) (p + 1) (word cs)) moved
              (word-CString m (p + 1) cs rest),
        ),
      )
]

CString-keep :
    (m m' : Mem) (s : ℕ) (xs : List ℕ)
    → ((a : ℕ) → s ≤ a → a ≤ s + length xs → m' a ≡ m a)
    → CString m s xs
    → CString m' s xs
unfolding CString
CString-keep m m' s [] keep here = keep s (omega arith) (omega arith) ∙ here
CString-keep m m' s (c ∷ cs) keep (here, (ne, rest)) = (
  keep s (omega arith) (omega arith) ∙ here,
  (ne, CString-keep m m' (s + 1) cs (λ a low high. keep a (omega arith) (omega arith)) rest),
)

words_nil : (n : ℕ) → words n [] ≡ []
unfolding words
words_nil zero = refl
words_nil (suc n) = refl

-- The arguments are the words, and only the line has changed.
abbrev Parsed : (m : Mem) (p size : ℕ) (ws : List (List ℕ)) → Option (List ℕ × Mem) → Type 0
Parsed m p size ws o =
    (ps : List ℕ) × (m' : Mem) × ((o ≡ some (ps, m'))
      × (Argv m' ps ws × ((a : ℕ) → (a < p) ⊎ (p + size ≤ a) → m' a ≡ m a)))

module _ (n fuel p c : ℕ) (cs : List ℕ) (m : Mem) (here : CString m p (c ∷ cs))
    (fits : length (c ∷ cs) < fuel) where
  abbrev end : ℕ
  end = p + length (word (c ∷ cs))

  starts : m p == 0 ≡ false
  unfolding CString
  starts = ground arith

  parse_last :
      after_word (c ∷ cs) ≡ []
      → Parsed m p (length (c ∷ cs)) (words (suc n) (c ∷ cs)) (parse_loop (suc n) fuel p m)
  unfolding parse_loop words Argv rest_of CString
  parse_last e =
      let (run, left) = token_end-word fuel p m (c ∷ cs) here fits in
      let nul : m end ≡ 0 = subst (CString m end) e left in
      let same : (a : ℕ) → m a ≡ update m end 0 a = λ a. ground arith in
      (
        p ∷ [],
        m,
        (
          rw (starts, run, nul) refl,
          (
            rw (e, words_nil n)
                (
                  CString-keep (update m end 0) m p (word (c ∷ cs)) (λ a low high. same a)
                      (word-CString m p (c ∷ cs) here),
                  tt,
                ),
            λ a out. refl,
          ),
        ),
      )

  parse_more :
      (b : ℕ) (bs : List ℕ)
      → after_word (c ∷ cs) ≡ b ∷ bs
      → ((q : ℕ) (k : Mem)
          → CString k q (drop_blanks bs)
          → Parsed k q (length (drop_blanks bs)) (words n (drop_blanks bs)) (parse_loop n fuel q k))
      → Parsed m p (length (c ∷ cs)) (words (suc n) (c ∷ cs)) (parse_loop (suc n) fuel p m)
  unfolding parse_loop words Argv rest_of CString
  parse_more b bs e again =
      let (run, left) = token_end-word fuel p m (c ∷ cs) here fits in
      let (hit, (ne, behind)) : CString m end (b ∷ bs) = subst (CString m end) e left in
      let sizes : length (word (c ∷ cs)) + suc (length bs) ≡ length (c ∷ cs) =
        subst (λ t. length (word (c ∷ cs)) + length t ≡ length (c ∷ cs)) e (length-word (c ∷ cs)) in
      let blank : m end == 0 ≡ false = ground arith in
      let m1 = update m end 0 in
      let kept : CString m1 (end + 1) bs =
        CString-update m (end + 1) end 0 bs behind (inl (omega arith)) in
      let (q, (skip, (start, (le, sum)))) =
        skip_blank-drop_blanks fuel (end + 1) m1 bs kept (omega arith) in
      let (ps, m2, (rest, (argv, outside))) = again q m1 start in
      (
        p ∷ ps,
        m2,
        (
          rw (starts, run, blank, skip, rest) refl,
          (
            rw e (
              CString-keep m1 m2 p (word (c ∷ cs)) (λ a low high. outside a (inl (omega arith)))
                  (word-CString m p (c ∷ cs) here),
              argv,
            ),
            λ a out. outside a (omega arith) ∙ ground arith,
          ),
        ),
      )

drop_blanks-shorter : (xs : List ℕ) → length (drop_blanks xs) ≤ length xs
unfolding drop_blanks
drop_blanks-shorter [] = omega arith
drop_blanks-shorter (c ∷ cs) = ground (arith, drop_blanks-shorter cs)

parse_loop-Parsed :
    (n fuel p : ℕ) (m : Mem) (xs : List ℕ)
    → CString m p xs
    → length xs < fuel
    → Parsed m p (length xs) (words n xs) (parse_loop n fuel p m)
unfolding parse_loop words Argv CString
parse_loop-Parsed zero fuel p m xs here fits = ([], m, (refl, (tt, λ a out. refl)))
parse_loop-Parsed (suc n) fuel p m [] here fits = ([], m, (rw here refl, (tt, λ a out. refl)))
parse_loop-Parsed (suc n) fuel p m (c ∷ cs) here fits =
    split (λ bs q k start short. parse_loop-Parsed n fuel q k (drop_blanks bs) start short)
      (after_word (c ∷ cs)) refl
  where
    split :
        ((bs : List ℕ) (q : ℕ) (k : Mem)
          → CString k q (drop_blanks bs)
          → length (drop_blanks bs) < fuel
          → Parsed k q (length (drop_blanks bs)) (words n (drop_blanks bs)) (parse_loop n fuel q k))
        → (tail : List ℕ) → after_word (c ∷ cs) ≡ tail
        → Parsed m p (length (c ∷ cs)) (words (suc n) (c ∷ cs)) (parse_loop (suc n) fuel p m)
    split again [] e = parse_last n fuel p c cs m here fits e
    split again (b ∷ bs) e =
        let sizes : length (word (c ∷ cs)) + suc (length bs) ≡ length (c ∷ cs) =
          subst (λ t. length (word (c ∷ cs)) + length t ≡ length (c ∷ cs)) e
            (length-word (c ∷ cs)) in
        parse_more n fuel p c cs m here fits b bs e
          λ q k start. again bs q k start (omega (arith, drop_blanks-shorter bs))

-- On a line that ends, with more fuel than it has characters, `shell_parse_line` ends; its arguments are
-- the words of the line, as far as there is room for them, each a string of its own, and memory outside
-- the line is unchanged.
pub shell_parse_line-words :
    (fuel line max_args : ℕ) (m : Mem) (xs : List ℕ)
    → CString m line xs
    → length xs < fuel
    → (ps : List ℕ) × (m' : Mem) × ((shell_parse_line fuel line max_args m ≡ some (ps, m'))
        × (Argv m' ps (words max_args (drop_blanks xs))
            × ((a : ℕ) → (a < line) ⊎ (line + length xs ≤ a) → m' a ≡ m a)))
unfolding shell_parse_line
shell_parse_line-words fuel line max_args m xs here fits =
    let (q, (skip, (start, (le, sum)))) = skip_blank-drop_blanks fuel line m xs here fits in
    let (ps, m', (run, (argv, outside))) =
      parse_loop-Parsed max_args fuel q m (drop_blanks xs) start (omega arith) in
    (ps, m', (rw (shell_parse_line, skip, run) refl, (argv, λ a out. outside a (omega arith))))
