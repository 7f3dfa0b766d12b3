-- ===== src/Types/DateOperators/Calendar.antt =====
-- The days of a month in the Gregorian calendar, against `ClampDayOfMonth`.
use quickstep_streaming.Prelude.{
  ℕ, ◌+◌, ◌%◌, ◌≤◌, ◌<◌, ◌≡◌, min, Bool, not, ◌&&◌, ◌||◌, ◌==◌, if◌then◌else◌, arith,
}
use quickstep_streaming.Types.DateOperators.{int_mod, int_sign, days_in_february, clamped_day}

-- The year that `tm_year` stands for.
abbrev pub calendar_year : ℕ → ℕ
calendar_year tm_year = (tm_year + 1900) % int_mod

unfoldable pub is_leap : ℕ → Bool
is_leap y = y % 4 == 0 && (not (y % 100 == 0) || y % 400 == 0)

-- Months are counted from 0.
unfoldable pub days_in_month : ℕ → ℕ → ℕ
days_in_month y mon =
    if mon == 1
    then if is_leap y then 29 else 28
    else if mon == 3 || (mon == 5 || (mon == 8 || mon == 10))
    then 30
    else 31

-- From the year 0 on the test by 4, 25 and 16 is the calendar's by 4, 100 and 400.
days_in_february-is_leap :
    (w : ℕ)
    → w < int_mod
    → calendar_year w < int_sign
    → days_in_february w ≡ (if is_leap (calendar_year w) then 29 else 28)
unfolding days_in_february is_leap
days_in_february-is_leap w h h' = ground arith

-- For a year from 0 on and a day of at most 31, `clamped_day` is the day or the last day of the
-- month in the Gregorian calendar, whichever is less.
pub clamped_day-min :
    (w mon day : ℕ)
    → w < int_mod
    → calendar_year w < int_sign
    → day ≤ 31
    → clamped_day w mon day ≡ min day (days_in_month (calendar_year w) mon)
unfolding clamped_day days_in_month
clamped_day-min w mon day h h' d = ground (arith, days_in_february-is_leap w h h')
