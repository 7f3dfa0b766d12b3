-- ===== src/Types/DateOperators.antt =====
-- The arithmetic of dates with a year-month interval in types/DateOperatorOverloads.hpp, on the
-- fields of `struct tm` that it changes. An `int` is a word of 32 bits and an `int64_t` one of 64, in
-- two's complement. The calls of `gmtime_r` before and of `timegm` after are the C library's.
pub mod Calendar
pub mod Shifts
use quickstep_streaming.Prelude.{
  ℕ, ◌+◌, ◌-◌, ◌/◌, ◌%◌, Bool, not, ◌&&◌, ◌||◌, ltb, leb, ◌==◌, if◌then◌else◌,
}

abbrev pub int_mod : ℕ
int_mod = 4294967296

abbrev pub int_sign : ℕ
int_sign = 2147483648

abbrev pub long_mod : ℕ
long_mod = 18446744073709551616

abbrev pub long_sign : ℕ
long_sign = 9223372036854775808

-- `tm_year` (from 1900), `tm_mon` (from 0) and `tm_mday` (from 1).
pub record Tm : Type 0 where
  pub tm_year : ℕ
  pub tm_mon : ℕ
  pub tm_mday : ℕ

-- The absolute value of an `int`.
abbrev pub magnitude : ℕ → ℕ
magnitude w = if ltb w int_sign then w else int_mod - w

unfoldable pub days_in_february : ℕ → ℕ
days_in_february tm_year =
    if tm_year % 4 == 0
      && (not (magnitude tm_year % 25 == 0) || ((tm_year + 1900) % int_mod) % 16 == 0)
    then 29
    else 28

-- The day that `ClampDayOfMonth` leaves.
unfoldable pub clamped_day : ℕ → ℕ → ℕ → ℕ
clamped_day year mon day =
    if mon == 1
    then if ltb (days_in_february year) day then days_in_february year else day
    else if (mon == 3 || mon == 5) || (mon == 8 || mon == 10)
    then if day == 31 then 30 else day
    else day

abbrev pub clamp_day_of_month : Tm → Tm
clamp_day_of_month t = record {
  tm_year = t.tm_year;
  tm_mon = t.tm_mon;
  tm_mday = clamped_day t.tm_year t.tm_mon t.tm_mday;
}

-- `months / 12` and `months % 12`, towards zero, of an `int64_t`.
abbrev pub years_of : ℕ → ℕ
years_of months =
    if ltb months long_sign then months / 12 else (long_mod - (long_mod - months) / 12) % long_mod

abbrev pub months_of : ℕ → ℕ
months_of months =
    if ltb months long_sign then months % 12 else (long_mod - (long_mod - months) % 12) % long_mod

-- The months after `tm_mon += …`, with the carry into the years.
abbrev carried : ℕ → ℕ → ℕ → Tm
carried year mon day =
    let over = ltb mon int_sign && ltb 11 mon in
    record {
      tm_year = if over then (year + 1) % int_mod else year;
      tm_mon = if over then mon - 12 else mon;
      tm_mday = day;
    }

-- What `operator+` does to the fields before `timegm`.
unfoldable pub add_year_month_interval : Tm → ℕ → Tm
add_year_month_interval t months = clamp_day_of_month (
    carried ((t.tm_year + years_of months) % int_mod) ((t.tm_mon + months_of months) % int_mod)
      t.tm_mday)

-- The months after `tm_mon -= …`, with the borrow from the years.
abbrev borrowed : ℕ → ℕ → ℕ → Tm
borrowed year mon day =
    let under = leb int_sign mon in
    record {
      tm_year = if under then (year + (int_mod - 1)) % int_mod else year;
      tm_mon = if under then (mon + 12) % int_mod else mon;
      tm_mday = day;
    }

-- What `operator-` does to the fields before `timegm`.
unfoldable pub subtract_year_month_interval : Tm → ℕ → Tm
subtract_year_month_interval t months = clamp_day_of_month (
    borrowed ((t.tm_year + (long_mod - years_of months)) % int_mod)
      ((t.tm_mon + (long_mod - months_of months)) % int_mod) t.tm_mday)
