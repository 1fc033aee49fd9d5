-- ===== src/Shell/Input.antt =====
-- A line that the shell of user/shell.c has read is a string that it can split.
use ccos.Common.{
  ℕ, zero, suc, ◌+◌, ◌≤◌, ◌<◌, ◌≡◌, refl, sym, ap, true, some, List, [], ◌∷◌, arith, ℤ, length,
}
use ccos.Memory.{Mem}
use ccos.Text.Strings.{CString}
use ccos.Lines.{Reading, Line}
use ccos.Lines.Editing.{some_stops, u_gets-IsLine}
use ccos.Shell.{shell_parse_line, read_code, shell_read_line}
use ccos.Shell.Words.{drop_blanks, words, Argv, shell_parse_line-words}
use mathlib.Core.Path.{subst}

-- The bytes of a block.
pub bytes_at : (n p : ℕ) → Mem → List ℕ
bytes_at zero p m = []
bytes_at (suc n) p m = m p ∷ bytes_at n (p + 1) m

length-bytes_at : (n p : ℕ) (m : Mem) → length (bytes_at n p m) ≡ n
unfolding bytes_at
length-bytes_at zero p m = refl
length-bytes_at (suc n) p m = ap suc (length-bytes_at n (p + 1) m)

bytes_at-CString :
    (n p : ℕ) (m : Mem)
    → ((i : ℕ) → i < n → 32 ≤ m (p + i))
    → m (p + n) ≡ 0
    → CString m p (bytes_at n p m)
unfolding bytes_at CString
bytes_at-CString zero p m visible nul = subst (λ a. m a ≡ 0) (omega arith) nul
bytes_at-CString (suc n) p m visible nul =
    let first : p + 0 ≡ p = omega arith in
    let next : p + suc n ≡ p + 1 + n = omega arith in
    let here : 32 ≤ m p = subst (λ a. 32 ≤ m a) first (visible 0 (omega arith)) in
    (
      refl,
      (
        (λ e. absurd (omega arith)),
        bytes_at-CString n (p + 1) m
            (λ i lt.
              let moved : p + suc i ≡ p + 1 + i = omega arith in
              subst (λ a. 32 ≤ m a) moved (visible (suc i) (omega arith)))
            (subst (λ a. m a ≡ 0) next nul),
      ),
    )

read_code-pos : (z : ℤ) → read_code z ≡ ℤ.pos 1 → (n : ℕ) × (z ≡ ℤ.pos (suc n))
read_code-pos (ℤ.pos zero) e = absurd (ground arith)
read_code-pos (ℤ.pos (suc n)) e = (n, refl)
read_code-pos (ℤ.negsuc k) e = absurd (ground arith)

-- A line that has been read: its text fits, and it is split into the words of that text.
pub record IsRead (line size max_args : ℕ) (m : Mem) : Type 0 where
  pub text : List ℕ
  pub stored : CString m line text
  pub short : length text < size
  pub arguments : List ℕ
  pub split : Mem
  pub run : shell_parse_line size line max_args m ≡ some (arguments, split)
  pub words_of : Argv split arguments (words max_args (drop_blanks text))

-- Once a reading ends the line, `shell_read_line` returns; and if it answers SHELL_READ_OK, the buffer holds
-- a string that is shorter than it, which `shell_parse_line` splits into its words.
pub shell_read_line-IsRead :
    (line size max_args : ℕ) (input : List Reading) (m : Mem)
    → some_stops input ≡ true
    → (code : ℤ) × (l : Line) × ((shell_read_line line size input m ≡ some (code, l))
        × (code ≡ ℤ.pos 1 → IsRead line size max_args l.memory))
unfolding shell_read_line
shell_read_line-IsRead line size max_args input m ends =
    let (l, (got_line, good)) = u_gets-IsLine line size input m ends in
    (
      read_code l.result,
      l,
      (
        rw (shell_read_line, got_line) refl,
        λ ok.
            let (n, result) = read_code-pos l.result ok in
            let (fits, (nul, visible)) = good.line n result in
            let text = bytes_at (suc n) line l.memory in
            let stored =
              bytes_at-CString (suc n) line l.memory (λ i lt. (visible i (omega arith)).0) nul in
            let short : length text < size =
              subst (λ k. k < size) (sym (length-bytes_at (suc n) line l.memory)) fits in
            let (ps, m', (run, (argv, outside))) =
              shell_parse_line-words size line max_args l.memory text stored short in
            record {
              text = text;
              stored = stored;
              short = short;
              arguments = ps;
              split = m';
              run = run;
              words_of = argv;
            },
      ),
    )
