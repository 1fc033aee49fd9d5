-- ===== src/Lines/Editing.antt =====
-- What the line readers of user/ulib_stdio.c leave in the caller's buffer.
use ccos.Common.{
  ℕ, suc, ◌+◌, ◌-◌, ◌≤◌, ◌<◌, ◌≡◌, refl, ◌≢◌, ◌⊎◌, inl, inr, Bool, true, false, ◌||◌, Option, some,
  List, [], ◌∷◌, ◌++◌, arith, ltb, leb, ◌==◌, if◌then◌else◌, ℤ, Bool-cases, sym, not, ◌&&◌,
}
use ccos.Kernel.{update}
use ccos.Memory.{Mem}
use ccos.Lines.{
  Reading, got, end_of_file, failed, Line, finish, give_up, is_line_end, is_backspace, interrupted,
  gets_loop, u_gets,
}

-- The reading ends a line, whatever stands in the buffer.
abbrev pub stops : Reading → Bool
stops (got c) = c == 3 || is_line_end c
stops end_of_file = true
stops (failed e) = true

unfoldable pub some_stops : List Reading → Bool
some_stops [] = false
some_stops (r ∷ rs) = stops r || some_stops rs

-- The reading that ends the line is the end of the input.
unfoldable pub ends_at_eof : List Reading → Bool
ends_at_eof [] = false
ends_at_eof (got c ∷ rs) = not (stops (got c)) && ends_at_eof rs
ends_at_eof (end_of_file ∷ rs) = true
ends_at_eof (failed e ∷ rs) = false

-- Not a control character of ASCII: those are the codes below 32, and 127 (DEL).
abbrev pub Visible : ℕ → Type 0
Visible c = (32 ≤ c) × (c ≢ 127)

-- The bytes of the line so far are visible and stand below the size; memory has not changed outside
-- the buffer.
record IsEditing (m₀ m : Mem) (buf size used : ℕ) : Type 0 where
  room : used + 1 ≤ size
  visible : (i : ℕ) → i < used → Visible (m (buf + i))
  outside : (a : ℕ) → (a < buf) ⊎ (buf + size ≤ a) → m a ≡ m₀ a

-- A line that is returned is shorter than the buffer, has visible characters only and a NUL after them.
-- After an empty line there is a NUL, too, unless it is empty because the input has ended. Whatever is
-- returned, memory is the same outside the buffer.
pub record IsLine (m : Mem) (buf size : ℕ) (eof : Bool) (l : Line) : Type 0 where
  pub line :
      (n : ℕ)
      → l.result ≡ ℤ.pos (suc n)
      → (suc n < size)
        × ((l.memory (buf + suc n) ≡ 0) × ((i : ℕ) → i ≤ n → Visible (l.memory (buf + i))))
  pub empty : l.result ≡ ℤ.pos 0 → (eof ≡ true) ⊎ (l.memory buf ≡ 0)
  pub outside : (a : ℕ) → (a < buf) ⊎ (buf + size ≤ a) → l.memory a ≡ m a

finish-IsLine :
    (m₀ m : Mem) (buf size used : ℕ) (eof : Bool) (echo : List ℕ) (rest : List Reading)
    → IsEditing m₀ m buf size used
    → IsLine m₀ buf size eof (finish buf used m echo rest)
finish-IsLine m₀ m buf size used eof echo rest e = record {
  line = λ n same.
      let all : used ≡ suc n = ground arith in
      (
        omega (arith, e.room),
        (
          ground arith,
          λ i le.
              let (low, del) = e.visible i (omega arith) in
              let kept : update m (buf + used) 0 (buf + i) ≡ m (buf + i) = ground arith in
              rw kept (low, del),
        ),
      );
  empty = λ same. inr (let none_read : used ≡ 0 = ground arith in ground (arith, none_read));
  outside = λ a out. ground (arith, e.room, e.outside a out);
}

give_up-IsLine :
    (m₀ m : Mem) (buf size used : ℕ) (eof : Bool) (echo : List ℕ) (rest : List Reading) (r : ℤ)
    → ((n : ℕ) → r ≢ ℤ.pos (suc n))
    → (r ≡ ℤ.pos 0 → eof ≡ true)
    → IsEditing m₀ m buf size used
    → IsLine m₀ buf size eof (give_up r m echo rest)
give_up-IsLine m₀ m buf size used eof echo rest r none_read at_end e = record {
  line = λ n same. absurd (none_read n same);
  empty = λ same. inl (at_end same);
  outside = e.outside;
}

-- The call returns a line of this kind.
abbrev Returns : (m : Mem) (buf size : ℕ) (eof : Bool) → Option Line → Type 0
Returns m buf size eof o = (l : Line) × ((o ≡ some l) × IsLine m buf size eof l)

if_Returns :
    (m : Mem) (buf size : ℕ) (eof b : Bool) (x y : Option Line)
    → (b ≡ true → Returns m buf size eof x)
    → (b ≡ false → Returns m buf size eof y)
    → Returns m buf size eof (if b then x else y)
if_Returns m buf size eof true x y then_x else_y = then_x refl
if_Returns m buf size eof false x y then_x else_y = else_y refl

erase-IsEditing :
    (m₀ m : Mem) (buf size used : ℕ)
    → IsEditing m₀ m buf size used
    → IsEditing m₀ m buf size (used - 1)
erase-IsEditing m₀ m buf size used e = record {
  room = omega (arith, e.room);
  visible = λ i lt. e.visible i (omega arith);
  outside = e.outside;
}

store-IsEditing :
    (m₀ m : Mem) (buf size used c : ℕ)
    → IsEditing m₀ m buf size used
    → used < size - 1
    → Visible c
    → IsEditing m₀ (update m (buf + used) c) buf size (used + 1)
store-IsEditing m₀ m buf size used c e room visible = record {
  room = omega arith;
  visible = λ i lt. elim (Bool-cases (i == used)) [
    | inl last ↦ let here : update m (buf + used) c (buf + i) ≡ c = ground arith in rw here visible
    | inr before ↦
        let there : update m (buf + used) c (buf + i) ≡ m (buf + i) = ground arith in
        rw there (e.visible i (ground arith))
  ];
  outside = λ a out. ground (arith, e.outside a out);
}

interrupted-IsLine :
    (m₀ m : Mem) (buf size used : ℕ) (eof : Bool) (echo : List ℕ) (rest : List Reading)
    → IsEditing m₀ m buf size used
    → IsLine m₀ buf size eof (interrupted buf m echo rest)
interrupted-IsLine m₀ m buf size used eof echo rest e = record {
  line = λ n same. absurd (ground arith);
  empty = λ same. absurd (ground arith);
  outside = λ a out. ground (arith, e.room, e.outside a out);
}

gets_loop-IsLine :
    (m₀ : Mem) (buf size used : ℕ) (eof : Bool) (input : List Reading) (m : Mem) (echo : List ℕ)
    → IsEditing m₀ m buf size used
    → some_stops input ≡ true
    → ends_at_eof input ≡ eof
    → Returns m₀ buf size eof (gets_loop buf size used input m echo)
unfolding gets_loop some_stops ends_at_eof
gets_loop-IsLine m₀ buf size used eof [] m echo e ends at_end = absurd (ground arith)
gets_loop-IsLine m₀ buf size used eof (failed code ∷ rest) m echo e ends at_end = (
  give_up (ℤ.negsuc code) m echo rest,
  (
    refl,
    give_up-IsLine m₀ m buf size used eof echo rest (ℤ.negsuc code) (λ n same. ground arith)
        (λ same. absurd (ground arith)) e,
  ),
)
gets_loop-IsLine m₀ buf size used eof (end_of_file ∷ rest) m echo e ends at_end =
    if_Returns m₀ buf size eof (used == 0) (some (give_up (ℤ.pos 0) m echo rest))
      (some (finish buf used m echo rest))
      (λ empty. (
        give_up (ℤ.pos 0) m echo rest,
        (
          refl,
          give_up-IsLine m₀ m buf size used eof echo rest (ℤ.pos 0) (λ n same. ground arith)
              (λ same. sym at_end) e,
        ),
      ))
      (λ some_text.
        (finish buf used m echo rest, (refl, finish-IsLine m₀ m buf size used eof echo rest e)))
gets_loop-IsLine m₀ buf size used eof (got c ∷ rest) m echo e ends at_end =
    if_Returns m₀ buf size eof (c == 3) _ _
      (λ abort. (
        interrupted buf m echo rest,
        (refl, interrupted-IsLine m₀ m buf size used eof echo rest e),
      ))
      λ go_on.
        if_Returns m₀ buf size eof (is_line_end c) _ _
          (λ newline. (
            finish buf used m (echo ++ (10 ∷ [])) rest,
            (refl, finish-IsLine m₀ m buf size used eof (echo ++ (10 ∷ [])) rest e),
          ))
          λ inner.
            let more : some_stops rest ≡ true = ground arith in
            let later : ends_at_eof rest ≡ eof = ground arith in
            let ignored = gets_loop-IsLine m₀ buf size used eof rest m echo e more later in
            if_Returns m₀ buf size eof (is_backspace c) _ _
              (λ back.
                if_Returns m₀ buf size eof (ltb 0 used) _ _
                  (λ some_text.
                    gets_loop-IsLine m₀ buf size (used - 1) eof rest m (echo ++ (8 ∷ 32 ∷ 8 ∷ []))
                      (erase-IsEditing m₀ m buf size used e) more later)
                  λ empty. ignored)
              λ character.
                if_Returns m₀ buf size eof (ltb c 32) _ _ (λ control. ignored)
                  λ visible.
                    if_Returns m₀ buf size eof (ltb used (size - 1)) _ _
                      (λ room.
                        gets_loop-IsLine m₀ buf size (used + 1) eof rest (update m (buf + used) c)
                          (echo ++ (c ∷ []))
                          (store-IsEditing m₀ m buf size used c e (ground arith)
                            (ground arith, λ del. absurd (ground arith)))
                          more later)
                      λ full. ignored

-- Once a reading ends the line, `u_gets` returns: a line that it returns fits the buffer with its NUL and
-- has no control characters of ASCII, DEL included; an empty line has its NUL, unless the input ended before
-- it; and nothing outside the buffer is written.
pub u_gets-IsLine :
    (buf size : ℕ) (input : List Reading) (m : Mem)
    → some_stops input ≡ true
    → (l : Line) × ((u_gets buf size input m ≡ some l) × IsLine m buf size (ends_at_eof input) l)
unfolding u_gets
u_gets-IsLine buf size input m ends =
    if_Returns m buf size (ends_at_eof input) (buf == 0 || leb size 1) _ _
      (λ refused. (
        give_up (ℤ.negsuc 0) m [] input,
        (
          refl,
          record {
            line = λ n same. absurd (ground arith);
            empty = λ same. absurd (ground arith);
            outside = λ a out. refl;
          },
        ),
      ))
      λ go.
        gets_loop-IsLine m buf size 0 (ends_at_eof input) input m []
          (record {
            room = ground arith;
            visible = λ i lt. absurd (omega arith);
            outside = λ a out. refl;
          })
          ends refl
