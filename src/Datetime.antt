-- ===== src/Datetime.antt =====
-- user/datetime.c: the date and time of day, in UTC, of a number of seconds since 1970. The search
-- for the year runs on fuel, of which it takes one piece a year; `year` is an `int`, and a search that
-- counts it past 2 ^ 31 - 1, which C leaves undefined, answers none, as one without fuel does.
pub mod Calendar
use ccos.Common.{
  ℕ, zero, suc, ◌+◌, ◌-◌, Bool, true, false, not, ◌&&◌, Option, none, some, List, [], ◌∷◌, leb,
  ◌==◌, if◌then◌else◌, nth, ◌%◌, ltb, ◌^◌,
}
use Prim.Native.Nat.{◌*◌, ◌/◌}

pub record Datetime : Type 0 where
  pub year : ℕ
  pub month : ℕ
  pub day : ℕ
  pub hour : ℕ
  pub min : ℕ
  pub sec : ℕ

abbrev pub secs_per_min : ℕ
secs_per_min = 60

abbrev pub secs_per_hour : ℕ
secs_per_hour = 60 * secs_per_min

abbrev pub secs_per_day : ℕ
secs_per_day = 24 * secs_per_hour

abbrev pub month_days : List ℕ
month_days = 31 ∷ 28 ∷ 31 ∷ 30 ∷ 31 ∷ 30 ∷ 31 ∷ 31 ∷ 30 ∷ 31 ∷ 30 ∷ 31 ∷ []

unfoldable pub is_leap_year : ℕ → Bool
is_leap_year year =
    if not (year % 4 == 0)
    then false
    else if not (year % 100 == 0)
    then true
    else if not (year % 400 == 0)
    then false
    else true

unfoldable pub days_in_year : ℕ → ℕ
days_in_year year = if is_leap_year year then 366 else 365

-- `dim`: the days of a month, from 0 on, of a year.
unfoldable pub days_in_month : (year month : ℕ) → ℕ
days_in_month year month = if month == 1 && is_leap_year year then 29 else nth month_days month

-- INT_MAX
abbrev pub int_max : ℕ
int_max = 2 ^ 31 - 1

-- Step 2, with the year that the days are counted from and the days that are left.
unfoldable pub year_loop : (fuel year days : ℕ) → Option (ℕ × ℕ)
year_loop zero year days = none
year_loop (suc fuel) year days =
    let rest = year_loop fuel (year + 1) (days - days_in_year year) in
    if leb (days_in_year year) days
    then (if ltb year int_max then rest else none)
    else some (year, days)

-- Step 3, with the rounds that are left before `month` is 12.
unfoldable pub month_loop : (rounds year month days : ℕ) → ℕ × ℕ
month_loop zero year month days = (month, days)
month_loop (suc rounds) year month days =
    let rest = month_loop rounds year (month + 1) (days - days_in_month year month) in
    if leb (days_in_month year month) days then rest else (month, days)

unfoldable pub fill_date : (sec_of_day : ℕ) → ℕ × ℕ → Datetime
fill_date sec_of_day (year, days) =
    let md = month_loop 12 year 0 days in
    record {
      year = year;
      month = md.0 + 1;
      day = md.1 + 1;
      hour = sec_of_day / secs_per_hour;
      min = sec_of_day % secs_per_hour / secs_per_min;
      sec = sec_of_day % secs_per_hour % secs_per_min;
    }

unfoldable pub epoch_to_utc_datetime : (fuel epoch_sec : ℕ) → Option Datetime
epoch_to_utc_datetime fuel epoch_sec = elim (year_loop fuel 1970 (epoch_sec / secs_per_day)) [
  | none ↦ none
  | some found ↦ some (fill_date (epoch_sec % secs_per_day) found)
]
