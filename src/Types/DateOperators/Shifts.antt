-- ===== src/Types/DateOperators/Shifts.antt =====
-- Adding and subtracting a year-month interval, as arithmetic on months.
use quickstep_streaming.Prelude.{ℕ, ◌+◌, ◌-◌, ◌*◌, ◌%◌, ◌≤◌, ◌<◌, ◌≡◌, min, arith}
use quickstep_streaming.Types.DateOperators.{
  Tm, int_mod, int_sign, long_mod, long_sign, clamped_day, add_year_month_interval,
  subtract_year_month_interval,
}
use quickstep_streaming.Types.DateOperators.Calendar.{calendar_year, days_in_month, clamped_day-min}

-- The fields are those of a date from the year 0 on.
pub record IsDate (t : Tm) : Type 0 where
  pub word : t.tm_year < int_mod
  pub year : calendar_year t.tm_year < int_sign
  pub month : t.tm_mon < 12
  pub day : t.tm_mday ≤ 31

-- The months since the year 0.
abbrev pub month_number : Tm → ℕ
month_number t = 12 * calendar_year t.tm_year + t.tm_mon

-- The day of `t` in the month of `r`, or that month's last day.
abbrev pub IsClamped : Tm → Tm → Type 0
IsClamped t r = r.tm_mday ≡ min t.tm_mday (days_in_month (calendar_year r.tm_year) r.tm_mon)

-- For a date from the year 0 on and an interval that is not negative, where the sum is before the
-- year 2 ^ 31, adding the interval adds its months to the months since the year 0, with the month
-- in its range, and the day is that of the date or the last day of the new month.
pub add_year_month_interval-months :
    (t : Tm) (months : ℕ)
    → IsDate t
    → months < long_sign
    → month_number t + months < 12 * int_sign
    → ((add_year_month_interval t months).tm_mon < 12)
      × ((month_number (add_year_month_interval t months) ≡ month_number t + months)
          × IsClamped t (add_year_month_interval t months))
unfolding add_year_month_interval
add_year_month_interval-months t months d h fits =
    let r = add_year_month_interval t months in
    (
      ground arith,
      (
        ground arith,
        clamped_day-min r.tm_year r.tm_mon t.tm_mday (ground arith) (ground arith) d.day,
      ),
    )

-- For a date from the year 0 on and an interval that is not negative and does not lead before the
-- year 0, subtracting the interval takes its months from the months since the year 0, with the
-- month in its range, and the day is that of the date or the last day of the new month.
pub subtract_year_month_interval-months :
    (t : Tm) (months : ℕ)
    → IsDate t
    → months ≤ month_number t
    → ((subtract_year_month_interval t months).tm_mon < 12)
      × ((month_number (subtract_year_month_interval t months) + months ≡ month_number t)
          × IsClamped t (subtract_year_month_interval t months))
unfolding subtract_year_month_interval
subtract_year_month_interval-months t months d fits =
    let r = subtract_year_month_interval t months in
    (
      ground arith,
      (
        ground arith,
        clamped_day-min r.tm_year r.tm_mon t.tm_mday (ground arith) (ground arith) d.day,
      ),
    )

-- For a negative interval, of `k` months back with `k` below 2 ^ 31, of which those past whole
-- years lead before January, adding the interval leaves a negative month in the fields, and the day
-- as it was.
pub add_year_month_interval-negative :
    (t : Tm) (k : ℕ)
    → t.tm_mon < k % 12
    → k < int_sign
    → ((add_year_month_interval t (long_mod - k)).tm_mon ≡ int_mod - (k % 12 - t.tm_mon))
      × ((add_year_month_interval t (long_mod - k)).tm_mday ≡ t.tm_mday)
unfolding add_year_month_interval clamped_day
add_year_month_interval-negative t k m h = ground arith
