-- ===== src/Lines.antt =====
-- user/ulib_stdio.c: reading characters and lines. What `read` of one byte answers is an input of the
-- model, one `Reading` a call; a function that would wait for more than are given answers none. The
-- characters that `u_putchar` echoes are collected in the order in which they are written.
pub mod Editing
pub mod Exactly
use ccos.Common.{
  ℕ, zero, suc, ◌+◌, ◌-◌, Bool, ◌||◌, Option, none, some, List, [], ◌∷◌, ◌++◌, ltb, leb, ◌==◌,
  if◌then◌else◌, ℤ,
}
use ccos.Kernel.{update}
use ccos.Memory.{Mem}

-- The answer of `read(fd, &c, 1)`: a byte, 0, or a negative number, `failed e` for `- (e + 1)`.
pub data Reading : Type 0 where
  got : (c : ℕ) → Reading
  end_of_file : Reading
  failed : (e : ℕ) → Reading

-- What a function returns, the memory and the echo that it leaves, and the readings not yet taken.
pub record Line : Type 0 where
  pub result : ℤ
  pub memory : Mem
  pub echo : List ℕ
  pub rest : List Reading

abbrev pub u_gets_intr : ℤ
u_gets_intr = ℤ.negsuc 1

-- `buf[used] = '\0'; return used;`
abbrev pub finish : (buf used : ℕ) → Mem → List ℕ → List Reading → Line
finish buf used m echo rest = record {
  result = ℤ.pos used;
  memory = update m (buf + used) 0;
  echo = echo;
  rest = rest;
}

-- A return that leaves the buffer as it is.
abbrev pub give_up : ℤ → Mem → List ℕ → List Reading → Line
give_up n m echo rest = record { result = n; memory = m; echo = echo; rest = rest }

abbrev pub is_line_end : ℕ → Bool
is_line_end c = c == 10 || c == 13

abbrev pub is_backspace : ℕ → Bool
is_backspace c = c == 8 || c == 127

abbrev pub interrupted : (buf : ℕ) → Mem → List ℕ → List Reading → Line
interrupted buf m echo rest = record {
  result = u_gets_intr;
  memory = update m buf 0;
  echo = echo ++ (94 ∷ 67 ∷ 10 ∷ []);
  rest = rest;
}

pub gets_loop : (buf buf_size used : ℕ) → List Reading → Mem → (echo : List ℕ) → Option Line
gets_loop buf buf_size used [] m echo = none
gets_loop buf buf_size used (failed e ∷ rest) m echo = some (give_up (ℤ.negsuc e) m echo rest)
gets_loop buf buf_size used (end_of_file ∷ rest) m echo =
    if used == 0 then some (give_up (ℤ.pos 0) m echo rest) else some (finish buf used m echo rest)
gets_loop buf buf_size used (got c ∷ rest) m echo =
    let erased = gets_loop buf buf_size (used - 1) rest m (echo ++ (8 ∷ 32 ∷ 8 ∷ [])) in
    let ignored = gets_loop buf buf_size used rest m echo in
    let stored =
      gets_loop buf buf_size (used + 1) rest (update m (buf + used) c) (echo ++ (c ∷ [])) in
    if c == 3
    then some (interrupted buf m echo rest)
    else if is_line_end c
    then some (finish buf used m (echo ++ (10 ∷ [])) rest)
    else if is_backspace c
    then (if ltb 0 used then erased else ignored)
    else if ltb c 32
    then ignored
    else if ltb used (buf_size - 1)
    then stored
    else ignored

-- `buf` is an address, 0 for NULL.
unfoldable pub u_gets : (buf buf_size : ℕ) → List Reading → Mem → Option Line
u_gets buf buf_size input m =
    if buf == 0 || leb buf_size 1
    then some (give_up (ℤ.negsuc 0) m [] input)
    else gets_loop buf buf_size 0 input m []

pub read_line_loop : (buf rounds used : ℕ) → List Reading → Mem → Option Line
read_line_loop buf zero used input m = some (finish buf used m [] input)
read_line_loop buf (suc rounds) used [] m = none
read_line_loop buf (suc rounds) used (failed e ∷ rest) m = some (give_up (ℤ.negsuc e) m [] rest)
read_line_loop buf (suc rounds) used (end_of_file ∷ rest) m =
    if used == 0 then some (give_up (ℤ.pos 0) m [] rest) else some (finish buf used m [] rest)
read_line_loop buf (suc rounds) used (got c ∷ rest) m =
    let stored = read_line_loop buf rounds (used + 1) rest (update m (buf + used) c) in
    if is_line_end c then some (finish buf used m [] rest) else stored

-- The loop is left when `used >= buf_size - 1`, so it has at most `buf_size - 1` rounds.
unfoldable pub u_read_line : (buf buf_size : ℕ) → List Reading → Mem → Option Line
u_read_line buf buf_size input m =
    if leb buf_size 1
    then some (give_up (ℤ.negsuc 0) m [] input)
    else read_line_loop buf (buf_size - 1) 0 input m

-- The byte stands in the buffer before it is looked at.
pub read_until_loop : (buf rounds used delim : ℕ) → List Reading → Mem → Option Line
read_until_loop buf zero used delim input m = some (finish buf used m [] input)
read_until_loop buf (suc rounds) used delim [] m = none
read_until_loop buf (suc rounds) used delim (failed e ∷ rest) m =
    some (give_up (ℤ.negsuc e) m [] rest)
read_until_loop buf (suc rounds) used delim (end_of_file ∷ rest) m =
    some (finish buf used m [] rest)
read_until_loop buf (suc rounds) used delim (got c ∷ rest) m =
    let more = read_until_loop buf rounds (used + 1) delim rest (update m (buf + used) c) in
    if c == delim then some (finish buf (used + 1) (update m (buf + used) c) [] rest) else more

unfoldable pub u_read_until : (buf buf_size delim : ℕ) → List Reading → Mem → Option Line
u_read_until buf buf_size delim input m =
    if leb buf_size 1
    then some (give_up (ℤ.negsuc 0) m [] input)
    else read_until_loop buf (buf_size - 1) 0 delim input m

-- The byte, -1 at the end of the input, or the error.
pub u_getchar : List Reading → Option (ℤ × List Reading)
u_getchar [] = none
u_getchar (got c ∷ rest) = some (ℤ.pos c, rest)
u_getchar (end_of_file ∷ rest) = some (ℤ.negsuc 0, rest)
u_getchar (failed e ∷ rest) = some (ℤ.negsuc e, rest)

-- `u_readn`, with what each call of `read` returns: the result, or none if it waits for more.
unfoldable pub readn_loop : (nbytes total : ℕ) → List ℤ → Option ℤ
readn_loop nbytes total [] = if ltb total nbytes then none else some (ℤ.pos total)
readn_loop nbytes total (ℤ.negsuc e ∷ ns) =
    if ltb total nbytes then some (ℤ.negsuc e) else some (ℤ.pos total)
readn_loop nbytes total (ℤ.pos zero ∷ ns) = some (ℤ.pos total)
readn_loop nbytes total (ℤ.pos (suc n) ∷ ns) =
    let rest = readn_loop nbytes (total + suc n) ns in
    if ltb total nbytes then rest else some (ℤ.pos total)

abbrev pub u_readn : (nbytes : ℕ) → List ℤ → Option ℤ
u_readn nbytes ns = readn_loop nbytes 0 ns
