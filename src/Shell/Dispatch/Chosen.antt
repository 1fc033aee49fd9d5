-- ===== src/Shell/Dispatch/Chosen.antt =====
-- The shell of user/shell.c and the thread of a command agree on the command of a line.
use ccos.Common.{
  ℕ, zero, suc, ◌+◌, ◌-◌, ◌≤◌, ◌<◌, ◌≡◌, refl, sym, ◌∙◌, inl, inr, true, false, Option, none, some,
  List, [], ◌∷◌, arith, ◌==◌, Bool-cases, length, ◌⊎◌,
}
use ccos.Kernel.{update}
use ccos.Memory.{Mem}
use ccos.Text.Strings.{CString}
use ccos.Shell.{shell_find_cmd, shell_max_line}
use ccos.Shell.Words.{word, drop_blanks, words, Argv, shell_parse_line-words}
use ccos.Shell.Find.{Names, IsFirst, nowhere, hit, later, shell_find_cmd-IsFirst}
use ccos.Shell.Dispatch.{
  shell_max_args, Table, names_of, runs_in_shell, copy_line, store_line, Looked, no_words,
  no_command, command, look_up, find_command, Dispatched, blank, unknown, in_shell, in_worker,
  choose, shell_dispatch_line,
}
use mathlib.Core.Path.{subst}

-- Memory is what it was outside the addresses from `low` to below `high`.
abbrev pub SameOutside : (low high : ℕ) → Mem → Mem → Type 0
SameOutside low high m m' = (a : ℕ) → (a < low) ⊎ (high ≤ a) → m' a ≡ m a

-- A string with its NUL lies apart from those addresses.
abbrev pub IsApart : (low high p : ℕ) → List ℕ → Type 0
IsApart low high p w = (p + length w < low) ⊎ (high ≤ p)

CString-outside :
    (low high p : ℕ) (m m' : Mem) (w : List ℕ)
    → IsApart low high p w
    → SameOutside low high m m'
    → CString m p w
    → CString m' p w
unfolding CString
CString-outside low high p m m' [] apart kept nul = kept p (omega arith) ∙ nul
CString-outside low high p m m' (x ∷ w) apart kept (here, (ne, rest)) = (
  kept p (omega arith) ∙ here,
  (ne, CString-outside low high (p + 1) m m' w (omega arith) kept rest),
)

-- The names of the commands lie apart from the addresses.
unfoldable pub AreApart : (low high : ℕ) → List ℕ → List (List ℕ) → Type 0
AreApart low high [] ws = Unit {0}
AreApart low high (p ∷ ps) [] = Unit {0}
AreApart low high (p ∷ ps) (w ∷ ws) = IsApart low high p w × AreApart low high ps ws

pub Names-outside :
    (low high : ℕ) (m m' : Mem) (ps : List ℕ) (ws : List (List ℕ))
    → AreApart low high ps ws
    → SameOutside low high m m'
    → Names m ps ws
    → Names m' ps ws
unfolding Names AreApart
Names-outside low high m m' [] [] apart kept names = names
Names-outside low high m m' [] (w ∷ ws) apart kept names = names
Names-outside low high m m' (p ∷ ps) [] apart kept names = names
Names-outside low high m m' (p ∷ ps) (w ∷ ws) (one, apart) kept (here, names) = (
  CString-outside low high p m m' w one kept here,
  Names-outside low high m m' ps ws apart kept names,
)

copy_line-CString :
    (room p : ℕ) (m : Mem) (xs : List ℕ)
    → CString m p xs
    → length xs ≤ room
    → copy_line room p m ≡ xs
unfolding copy_line CString
copy_line-CString zero p m [] here fits = refl
copy_line-CString zero p m (x ∷ xs) here fits = absurd (omega arith)
copy_line-CString (suc room) p m [] here fits = rw here refl
copy_line-CString (suc room) p m (x ∷ xs) (here, (ne, rest)) fits =
    let other : (x == 0) ≡ false = ground arith in
    rw (here, other, copy_line-CString room (p + 1) m xs rest (omega arith)) refl

pub store_line-below :
    (s : ℕ) (text : List ℕ) (m : Mem) (a : ℕ) → a < s → store_line s text m a ≡ m a
unfolding store_line
store_line-below s [] m a lt = ground arith
store_line-below s (c ∷ text) m a lt =
    store_line-below (s + 1) text (update m s c) a (omega arith) ∙ ground arith

pub store_line-above :
    (s : ℕ) (text : List ℕ) (m : Mem) (a : ℕ) → s + length text < a → store_line s text m a ≡ m a
unfolding store_line
store_line-above s [] m a lt = ground arith
store_line-above s (c ∷ text) m a lt =
    store_line-above (s + 1) text (update m s c) a (omega arith) ∙ ground arith

-- A text that stands somewhere as a string is one where it is stored.
pub store_line-CString :
    (s p : ℕ) (xs : List ℕ) (m n : Mem) → CString n p xs → CString (store_line s xs m) s xs
unfolding store_line CString
store_line-CString s p [] m n here = ground arith
store_line-CString s p (x ∷ xs) m n (here, (ne, rest)) = (
  store_line-below (s + 1) xs (update m s x) s (omega arith) ∙ ground arith,
  (ne, store_line-CString (s + 1) (p + 1) xs (update m s x) n rest),
)

length-drop_blanks : (xs : List ℕ) → length (drop_blanks xs) ≤ length xs
unfolding drop_blanks
length-drop_blanks [] = omega arith
length-drop_blanks (c ∷ xs) = ground (arith, length-drop_blanks xs)

length_of_word : (xs : List ℕ) → length (word xs) ≤ length xs
unfolding word
length_of_word [] = omega arith
length_of_word (c ∷ xs) = ground (arith, length_of_word xs)

-- The first word of a text is no longer than the text.
first_word_short :
    (n : ℕ) (xs w : List ℕ) (ws : List (List ℕ)) → words n xs ≡ w ∷ ws → length w ≤ length xs
unfolding words
first_word_short zero xs w ws e = absurd (ground arith)
first_word_short (suc n) [] w ws e = absurd (ground arith)
first_word_short (suc n) (c ∷ xs) w ws e =
    let first : word (c ∷ xs) ≡ w = ground arith in
    subst (λ v. length v ≤ length (c ∷ xs)) first (length_of_word (c ∷ xs))

-- The words of the line `xs`, of which the first names a command of `ws`, or none does.
pub data IsLooked (xs : List ℕ) (ws : List (List ℕ)) (m : Mem) : Looked → Type 0 where
  has_no_words : words shell_max_args (drop_blanks xs) ≡ [] → IsLooked xs ws m no_words
  names_nothing :
      (p : ℕ) (w : List ℕ) (others : List (List ℕ))
      → words shell_max_args (drop_blanks xs) ≡ w ∷ others
      → CString m p w
      → IsFirst w 0 ws none
      → IsLooked xs ws m (no_command p)
  names_command :
      (i : ℕ) (argv w : List ℕ) (others : List (List ℕ))
      → words shell_max_args (drop_blanks xs) ≡ w ∷ others
      → Argv m argv (w ∷ others)
      → IsFirst w 0 ws (some i)
      → IsLooked xs ws m (command i argv)

look_up-IsLooked :
    (fuel : ℕ) (table : Table) (m : Mem) (xs : List ℕ) (ws : List (List ℕ))
    → length xs < fuel
    → Names m (names_of table) ws
    → (vs : List (List ℕ)) → words shell_max_args (drop_blanks xs) ≡ vs
    → (argv : List ℕ) → Argv m argv vs
    → (l : Looked) × (look_up fuel table argv m ≡ some l) × IsLooked xs ws m l
unfolding look_up Argv
look_up-IsLooked fuel table m xs ws short names [] e [] args = (no_words, refl, has_no_words e)
look_up-IsLooked fuel table m xs ws short names [] e (p ∷ ps) args = absurd args
look_up-IsLooked fuel table m xs ws short names (w ∷ vs) e [] args = absurd args
look_up-IsLooked fuel table m xs ws short names (w ∷ vs) e (p ∷ ps) (here, others) =
    let fits = first_word_short shell_max_args (drop_blanks xs) w vs e in
    let (o, (run, first)) =
      shell_find_cmd-IsFirst fuel p (names_of table) m w ws here
        (omega (arith, fits, length-drop_blanks xs)) names in
    by_found o run first
  where
    by_found :
        (o : Option ℕ)
        → shell_find_cmd fuel p (names_of table) m ≡ some o
        → IsFirst w 0 ws o
        → (l : Looked) × (look_up fuel table (p ∷ ps) m ≡ some l) × IsLooked xs ws m l
    by_found none run first =
        (no_command p, rw (look_up, run) refl, names_nothing p w vs e here first)
    by_found (some i) run first = (
      command i (p ∷ ps),
      rw (look_up, run) refl,
      names_command i (p ∷ ps) w vs e (here, others) first,
    )

pub find_command-IsLooked :
    (fuel line : ℕ) (table : Table) (m : Mem) (xs : List ℕ) (ws : List (List ℕ))
    → CString m line xs
    → length xs < fuel
    → AreApart line (line + length xs) (names_of table) ws
    → Names m (names_of table) ws
    → (l : Looked) × (m' : Mem) × (find_command fuel line table m ≡ some (l, m'))
      × IsLooked xs ws m' l
unfolding find_command
find_command-IsLooked fuel line table m xs ws here short apart names =
    let (ps, m', (parsed, (args, outside))) =
      shell_parse_line-words fuel line shell_max_args m xs here short in
    let names' =
      Names-outside line (line + length xs) m m' (names_of table) ws apart outside names in
    let (l, run, looked) = look_up-IsLooked fuel table m' xs ws short names' _ refl ps args in
    (l, m', rw (find_command, parsed, run) refl, looked)

-- A name has one first place.
pub IsFirst-unique :
    (xs ys : List ℕ) (i : ℕ) (ws : List (List ℕ)) (o o' : Option ℕ)
    → xs ≡ ys
    → IsFirst xs i ws o
    → IsFirst ys i ws o'
    → o ≡ o'
IsFirst-unique xs ys i _ _ _ e (nowhere _) (nowhere _) = refl
IsFirst-unique xs ys i _ _ _ e (hit _ _) (hit _ _) = refl
IsFirst-unique xs ys i _ _ _ e (hit _ _) (later _ _ _ _ other _) = absurd (other (sym e))
IsFirst-unique xs ys i _ _ _ e (later _ _ _ _ other _) (hit _ _) = absurd (other e)
IsFirst-unique xs ys i _ _ _ e (later _ w ws o _ first) (later _ _ _ o' _ first') =
    IsFirst-unique xs ys (i + 1) ws o o' e first first'

-- What the shell does with the line `xs`.
pub data IsDispatched (xs : List ℕ) (ws : List (List ℕ)) (table : Table) (m : Mem)
    : Dispatched → Type 0 where
  is_blank_line : words shell_max_args (drop_blanks xs) ≡ [] → IsDispatched xs ws table m blank
  is_unknown :
      (p : ℕ) (w : List ℕ) (others : List (List ℕ))
      → words shell_max_args (drop_blanks xs) ≡ w ∷ others
      → CString m p w
      → IsFirst w 0 ws none
      → IsDispatched xs ws table m (unknown p)
  is_in_shell :
      (i : ℕ) (argv w : List ℕ) (others : List (List ℕ))
      → words shell_max_args (drop_blanks xs) ≡ w ∷ others
      → Argv m argv (w ∷ others)
      → IsFirst w 0 ws (some i)
      → runs_in_shell table i ≡ true
      → IsDispatched xs ws table m (in_shell i argv)
  is_in_worker :
      (i : ℕ) (w : List ℕ) (others : List (List ℕ))
      → words shell_max_args (drop_blanks xs) ≡ w ∷ others
      → IsFirst w 0 ws (some i)
      → runs_in_shell table i ≡ false
      → IsDispatched xs ws table m (in_worker i xs)

choose-IsDispatched :
    (xs : List ℕ) (ws : List (List ℕ)) (table : Table) (m : Mem) (l : Looked)
    → IsLooked xs ws m l
    → IsDispatched xs ws table m (choose table xs l)
unfolding choose
choose-IsDispatched xs ws table m _ (has_no_words e) = is_blank_line e
choose-IsDispatched xs ws table m _ (names_nothing p w others e here first) =
    is_unknown p w others e here first
choose-IsDispatched xs ws table m _ (names_command i argv w others e args first) =
    elim (Bool-cases (runs_in_shell table i)) [
      | inl yes_shell ↦ rw yes_shell (is_in_shell i argv w others e args first yes_shell)
      | inr no_shell ↦ rw no_shell (is_in_worker i w others e first no_shell)
    ]

-- For a line of at most 127 characters that does not overlap the names of the commands, shell_dispatch_line
-- ends: a line without words does nothing, a first word that is no command is reported, and otherwise the
-- first command of that name runs, in the shell with the words of the line as its arguments, or in a thread
-- of its own that is given the line unchanged.
pub shell_dispatch_line-IsDispatched :
    (fuel line : ℕ) (table : Table) (m : Mem) (xs : List ℕ) (ws : List (List ℕ))
    → CString m line xs
    → length xs < fuel
    → length xs < shell_max_line
    → AreApart line (line + length xs) (names_of table) ws
    → Names m (names_of table) ws
    → (d : Dispatched) × (m' : Mem) × (shell_dispatch_line fuel line table m ≡ some (d, m'))
      × IsDispatched xs ws table m' d
unfolding shell_dispatch_line
shell_dispatch_line-IsDispatched fuel line table m xs ws here short fits apart names =
    let (l, m', run, looked) =
      find_command-IsLooked fuel line table m xs ws here short apart names in
    let copied = copy_line-CString (shell_max_line - 1) line m xs here (omega arith) in
    (
      choose table xs l,
      m',
      rw (shell_dispatch_line, run, copied) refl,
      choose-IsDispatched xs ws table m' l looked,
    )
