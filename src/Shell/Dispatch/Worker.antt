-- ===== src/Shell/Dispatch/Worker.antt =====
-- The thread of a command of user/shell.c runs what the shell has chosen.
use ccos.Common.{
  ℕ, ◌+◌, ◌≤◌, ◌<◌, ◌≡◌, refl, sym, ap, ◌∙◌, Option, none, some, List, ◌∷◌, arith, length, [], inl,
  inr,
}
use ccos.Memory.{Mem}
use ccos.Text.Strings.{CString}
use ccos.Shell.{shell_max_line}
use ccos.Shell.Words.{drop_blanks, words, Argv}
use ccos.Shell.Find.{Names, IsFirst}
use ccos.Shell.Dispatch.{
  shell_max_args, Table, names_of, store_line, Looked, Dispatched, blank, unknown, in_shell,
  in_worker, shell_dispatch_line, runs, work_of, shell_cmd_worker,
}
use ccos.Shell.Dispatch.Chosen.{
  AreApart, SameOutside, Names-outside, store_line-above, store_line-below, store_line-CString,
  IsLooked, has_no_words, names_nothing, names_command, find_command-IsLooked, IsFirst-unique,
  IsDispatched, is_blank_line, is_unknown, is_in_shell, is_in_worker,
  shell_dispatch_line-IsDispatched,
}
use mathlib.Core.Path.{subst}

store_line-outside :
    (s : ℕ) (text : List ℕ) (m : Mem) → SameOutside s (s + length text + 1) m (store_line s text m)
store_line-outside s text m a (inl below) = store_line-below s text m a below
store_line-outside s text m a (inr above) = store_line-above s text m a (omega arith)

-- What is apart from more addresses is apart from fewer.
AreApart-narrower :
    (low high high' : ℕ) (ps : List ℕ) (ws : List (List ℕ))
    → high ≤ high'
    → AreApart low high' ps ws
    → AreApart low high ps ws
unfolding AreApart
AreApart-narrower low high high' [] ws le apart = apart
AreApart-narrower low high high' (p ∷ ps) [] le apart = apart
AreApart-narrower low high high' (p ∷ ps) (w ∷ ws) le (one, apart) =
    (omega arith, AreApart-narrower low high high' ps ws le apart)

module _ (xs : List ℕ) (ws : List (List ℕ)) (i : ℕ) where
  -- The thread finds the same command on its copy of the line.
  work_of-same :
      (w : List ℕ) (others : List (List ℕ)) (m : Mem) (l : Looked)
      → words shell_max_args (drop_blanks xs) ≡ w ∷ others
      → IsFirst w 0 ws (some i)
      → IsLooked xs ws m l
      → (argv : List ℕ) × (work_of l ≡ runs i argv)
        × Argv m argv (words shell_max_args (drop_blanks xs))
  unfolding work_of
  work_of-same w others m _ e first (has_no_words none_there) = absurd (ground (arith, e))
  work_of-same w others m _ e first (names_nothing p v more e' here first') =
      let same_word : w ≡ v = ground (arith, e, e') in
      absurd (ground (arith, IsFirst-unique w v 0 ws (some i) none same_word first first'))
  work_of-same w others m _ e first (names_command j argv v more e' args first') =
      let same_word : w ≡ v = ground (arith, e, e') in
      let same_place : i ≡ j =
        ground (arith, IsFirst-unique w v 0 ws (some i) (some j) same_word first first') in
      (argv, rw same_place refl, rw e' args)

  shell_cmd_worker-same :
      (fuel stack line : ℕ) (table : Table) (n m : Mem) (w : List ℕ) (others : List (List ℕ))
      → CString n line xs
      → length xs < fuel
      → AreApart stack (stack + length xs + 1) (names_of table) ws
      → Names m (names_of table) ws
      → words shell_max_args (drop_blanks xs) ≡ w ∷ others
      → IsFirst w 0 ws (some i)
      → (argv : List ℕ) × (m' : Mem) × (shell_cmd_worker fuel stack xs table m
          ≡ some (runs i argv, m'))
        × Argv m' argv (words shell_max_args (drop_blanks xs))
  unfolding shell_cmd_worker
  shell_cmd_worker-same fuel stack line table n m w others here short apart names e first =
      let stored = store_line-CString stack line xs m n here in
      let names' =
        Names-outside stack (stack + length xs + 1) m (store_line stack xs m) (names_of table) ws
          apart (store_line-outside stack xs m) names in
      let (l, m', run, looked) =
        find_command-IsLooked fuel stack table (store_line stack xs m) xs ws stored short
          (AreApart-narrower stack (stack + length xs) (stack + length xs + 1) (names_of table) ws
            (omega arith) apart)
          names' in
      let (argv, chosen, args) = work_of-same w others m' l e first looked in
      (argv, m', rw (shell_cmd_worker, run, chosen) refl, args)

-- The command and the line that a thread is given.
given : Dispatched → Option (ℕ × List ℕ)
given blank = none
given (unknown p) = none
given (in_shell i argv) = none
given (in_worker i raw_line) = some (i, raw_line)

given_of : Option (Dispatched × Mem) → Option (ℕ × List ℕ)
unfolding given
given_of none = none
given_of (some r) = given r.0

-- When the shell gives the line to a thread of its own for the command `i`, that thread ends its search at the
-- same command and runs it with the words of the line as its arguments. Neither the line nor its copy on the
-- stack of that thread overlaps the names of the commands.
pub shell_dispatch_line-shell_cmd_worker :
    (fuel line stack i : ℕ) (table : Table) (m m' n : Mem) (xs raw : List ℕ) (ws : List (List ℕ))
    → CString m line xs
    → length xs < fuel
    → length xs < shell_max_line
    → AreApart line (line + length xs) (names_of table) ws
    → AreApart stack (stack + length xs + 1) (names_of table) ws
    → Names m (names_of table) ws
    → Names n (names_of table) ws
    → shell_dispatch_line fuel line table m ≡ some (in_worker i raw, m')
    → (argv : List ℕ) × (n' : Mem) × (shell_cmd_worker fuel stack raw table n
        ≡ some (runs i argv, n'))
      × Argv n' argv (words shell_max_args (drop_blanks xs))
unfolding given_of
shell_dispatch_line-shell_cmd_worker fuel line stack i table m m' n xs raw ws here short fits apart
      apart' names names' e =
    let (d, m1, run, dispatched) =
      shell_dispatch_line-IsDispatched fuel line table m xs ws here short fits apart names in
    go d m1 dispatched (ap given_of (sym run ∙ e))
  where
    go :
        (d : Dispatched) (m1 : Mem)
        → IsDispatched xs ws table m1 d
        → given d ≡ some (i, raw)
        → (argv : List ℕ) × (n' : Mem) × (shell_cmd_worker fuel stack raw table n
            ≡ some (runs i argv, n'))
          × Argv n' argv (words shell_max_args (drop_blanks xs))
    go _ m1 (is_blank_line _) p = absurd (ground arith)
    go _ m1 (is_unknown _ _ _ _ _ _) p = absurd (ground arith)
    go _ m1 (is_in_shell _ _ _ _ _ _ _ _) p = absurd (ground arith)
    go _ m1 (is_in_worker j w others words_are first _) p =
        let same_line : xs ≡ raw = ground arith in
        let same_command : j ≡ i = ground arith in
        subst
          (λ r.
            (argv : List ℕ) × (n' : Mem) × (shell_cmd_worker fuel stack r table n
              ≡ some (runs i argv, n'))
            × Argv n' argv (words shell_max_args (drop_blanks xs)))
          same_line
          (shell_cmd_worker-same xs ws i fuel stack line table m n w others here short apart' names'
            words_are (subst (λ k. IsFirst w 0 ws (some k)) same_command first))
