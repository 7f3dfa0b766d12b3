-- ===== src/Tests/Dates.antt =====
-- Dates with year-month intervals.
use quickstep_streaming.Prelude.{◌+◌, ◌-◌, ◌%◌, ◌<◌, ◌≡◌, refl, arith}
use quickstep_streaming.Types.DateOperators.{
  Tm, int_mod, long_mod, clamped_day, days_in_february, add_year_month_interval,
  subtract_year_month_interval,
}
use quickstep_streaming.Types.DateOperators.Shifts.{
  IsDate, month_number, IsClamped, add_year_month_interval-months,
  subtract_year_month_interval-months, add_year_month_interval-negative,
}

-- The 31st of January 2000.
abbrev end_of_january : Tm
end_of_january = record { tm_year = 100; tm_mon = 0; tm_mday = 31 }

end_of_january-IsDate : IsDate end_of_january
end_of_january-IsDate = record {
  word = omega arith;
  year = omega arith;
  month = omega arith;
  day = omega arith;
}

one_month_later : (add_year_month_interval end_of_january 1).tm_mday ≡ 29
unfolding add_year_month_interval clamped_day days_in_february
one_month_later = refl

add_year_month_interval-months_example :
    ((add_year_month_interval end_of_january 13).tm_mon < 12)
    × ((month_number (add_year_month_interval end_of_january 13) ≡ month_number end_of_january + 13)
        × IsClamped end_of_january (add_year_month_interval end_of_january 13))
add_year_month_interval-months_example =
    add_year_month_interval-months end_of_january 13 end_of_january-IsDate (omega arith)
      (omega arith)

subtract_year_month_interval-months_example :
    ((subtract_year_month_interval end_of_january 13).tm_mon < 12)
    × ((month_number (subtract_year_month_interval end_of_january 13) + 13
          ≡ month_number end_of_january)
        × IsClamped end_of_january (subtract_year_month_interval end_of_january 13))
subtract_year_month_interval-months_example =
    subtract_year_month_interval-months end_of_january 13 end_of_january-IsDate (omega arith)

add_year_month_interval-negative_example :
    ((add_year_month_interval end_of_january (long_mod - 2)).tm_mon
      ≡ int_mod - (2 % 12 - end_of_january.tm_mon))
    × ((add_year_month_interval end_of_january (long_mod - 2)).tm_mday ≡ end_of_january.tm_mday)
add_year_month_interval-negative_example =
    add_year_month_interval-negative end_of_january 2 (omega arith) (omega arith)
