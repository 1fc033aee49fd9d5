-- ===== src/Datetime/Calendar.antt =====
-- The calendar of user/datetime.c: a date counts back to the seconds that it was computed from.
use ccos.Common.{ℕ, zero, suc, ◌+◌, ◌-◌, ◌≤◌, ◌<◌, ◌%◌}
use ccos.Datetime.{
  Datetime, secs_per_min, secs_per_hour, secs_per_day, days_in_year, days_in_month, int_max,
}
use Prim.Native.Nat.{◌*◌, ◌/◌}

-- The days of `n` years from a year on.
pub days_of_years : (year n : ℕ) → ℕ
days_of_years year zero = 0
days_of_years year (suc n) = days_in_year year + days_of_years (year + 1) n

-- The days of `n` months from a month on.
pub days_of_months : (year month n : ℕ) → ℕ
days_of_months year month zero = 0
days_of_months year month (suc n) = days_in_month year month + days_of_months year (month + 1) n

-- Every field lies in its range.
pub record IsDate (dt : Datetime) : Type 0 where
  pub year : (1970 ≤ dt.year) × (dt.year ≤ int_max)
  pub month : (1 ≤ dt.month) × (dt.month ≤ 12)
  pub day : (1 ≤ dt.day) × (dt.day ≤ days_in_month dt.year (dt.month - 1))
  pub hour : dt.hour < 24
  pub min : dt.min < 60
  pub sec : dt.sec < 60

abbrev pub days_to : Datetime → ℕ
days_to dt =
    days_of_years 1970 (dt.year - 1970) + days_of_months dt.year 0 (dt.month - 1) + (dt.day - 1)

-- The seconds from the start of 1970 to a date.
abbrev pub seconds_to : Datetime → ℕ
seconds_to dt = days_to dt * secs_per_day + dt.hour * secs_per_hour + dt.min * secs_per_min + dt.sec

-- The date that the loops' results are put into; months and days count from 0 here.
abbrev made : (sec_of_day year month day : ℕ) → Datetime
made t y j q = record {
  year = y;
  month = j + 1;
  day = q + 1;
  hour = t / secs_per_hour;
  min = t % secs_per_hour / secs_per_min;
  sec = t % secs_per_hour % secs_per_min;
}
