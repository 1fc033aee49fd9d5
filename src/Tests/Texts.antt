-- ===== src/Tests/Texts.antt =====
-- The theorems on the C library and the user programs at small blocks, strings and dates.
use ccos.Common.{
  ℕ, ◌+◌, ◌-◌, ◌≤◌, ◌≡◌, refl, ◌↔◌, true, ◌||◌, none, some, List, [], ◌∷◌, arith, ◌==◌,
  if◌then◌else◌, ℤ, length, ◌%◌,
}
use ccos.Memory.{Mem, memmove}
use ccos.Memory.Copy.{within, memmove-within}
use ccos.Text.{u_strcmp}
use ccos.Text.Strings.{CString}
use ccos.Text.Compare.{compare_text, u_strcmp-compare_text}
use ccos.Number.{u_itoa, u_atol}
use ccos.Number.Digits.{u_itoa-u_atol}
use ccos.Print.{Args, u_vsnprintf}
use ccos.Print.Bounds.{Holds, u_vsnprintf-Holds}
use ccos.Lines.{Reading, got, Line, u_gets}
use ccos.Lines.Editing.{some_stops, ends_at_eof, IsLine, u_gets-IsLine}
use ccos.Datetime.{
  Datetime, is_leap_year, days_in_year, days_in_month, year_loop, month_loop, fill_date,
  epoch_to_utc_datetime,
}
use Prim.Native.Nat.{◌^◌}

-- "hi" at 100 and "ho" at 200, with their NULs, among bytes that are 7.
abbrev small : Mem
small a =
    if a == 100 || a == 200
    then 104
    else if a == 101
    then 105
    else if a == 201
    then 111
    else if a == 102 || a == 202
    then 0
    else 7

abbrev hi : List ℕ
hi = 104 ∷ 105 ∷ []

abbrev ho : List ℕ
ho = 104 ∷ 111 ∷ []

hi-CString : CString small 100 hi
unfolding CString
hi-CString = (refl, ((λ e. ground arith), (refl, ((λ e. ground arith), refl))))

ho-CString : CString small 200 ho
unfolding CString
ho-CString = (refl, ((λ e. ground arith), (refl, ((λ e. ground arith), refl))))

memmove-within_example :
    memmove 101 100 3 small 102
    ≡ (if within 101 3 102 then small (100 + (102 - 101)) else small 102)
memmove-within_example = memmove-within 101 100 3 small 102

u_strcmp-compare_text_example :
    (u_strcmp 3 100 200 small ≡ some (compare_text hi ho))
    × ((compare_text hi ho ≡ ℤ.pos 0) ↔ (hi ≡ ho))
u_strcmp-compare_text_example =
    u_strcmp-compare_text 3 100 200 small hi ho hi-CString ho-CString (omega arith)

u_itoa-u_atol_example :
    (q : List ℕ) × ((u_itoa 64 1234 10 true ≡ some q) × ((length q ≤ 21) × (u_atol q ≡ 1234)))
u_itoa-u_atol_example = u_itoa-u_atol 1234 true (omega arith)

-- "%5d!"
abbrev a_format : List ℕ
a_format = 37 ∷ 53 ∷ 100 ∷ 33 ∷ []

abbrev one_arg : Args
one_arg i = record { bits = 42; text = none }

u_vsnprintf-Holds_example :
    (text : List ℕ) × ((buf size : ℕ) (m : Mem)
      → (m' : Mem) × ((u_vsnprintf 5 buf size a_format one_arg m ≡ some (m', length text % 2 ^ 32))
          × Holds m m' buf size text))
u_vsnprintf-Holds_example = u_vsnprintf-Holds 5 a_format one_arg (omega arith)

-- "ab", a backspace and a newline.
abbrev typed : List Reading
typed = got 97 ∷ got 98 ∷ got 8 ∷ got 10 ∷ []

stops_at_newline : some_stops typed ≡ true
unfolding some_stops
stops_at_newline = refl

u_gets-IsLine_example :
    (l : Line) × ((u_gets 400 8 typed small ≡ some l) × IsLine small 400 8 (ends_at_eof typed) l)
u_gets-IsLine_example = u_gets-IsLine 400 8 typed small stops_at_newline

-- The 29th of February 2024.
leap_day_run :
    epoch_to_utc_datetime 60 1709164800
    ≡ some (record { year = 2024; month = 2; day = 29; hour = 0; min = 0; sec = 0 })
unfolding epoch_to_utc_datetime fill_date year_loop month_loop days_in_year days_in_month
    is_leap_year
leap_day_run = refl
