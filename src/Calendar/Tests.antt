-- ===== src/Calendar/Tests.antt =====
-- Dates of an example.
use microservice_metarang.Prelude.{◌≡◌, refl, arith}
use microservice_metarang.Calendar.Jalali.{Date, count_days, of_days, gregorian_to_jalali}
use microservice_metarang.Calendar.Days.{IsGregorian, gregorian_to_jalali-next}

-- The 20th of March 2024 is the first day of 1403; the result is 79 days late.
new_year_1403 : gregorian_to_jalali 2024 3 20 ≡ record { year = 1403; month = 3; day = 18 }
unfolding gregorian_to_jalali count_days of_days
new_year_1403 = refl

-- 977 would have to be a long year for this day.
end_of_1598 : gregorian_to_jalali 1598 12 31 ≡ record { year = 977; month = 12; day = 30 }
unfolding gregorian_to_jalali count_days of_days
end_of_1598 = refl

-- The last day of March before the leap year 2024.
abbrev march_31 : Date
march_31 = record { year = 2023; month = 3; day = 31 }

march_31-IsGregorian : IsGregorian march_31
march_31-IsGregorian = record {
  month_from = omega arith;
  month_to = omega arith;
  day_from = omega arith;
  day_to = omega arith;
}

gregorian_to_jalali-next_example : gregorian_to_jalali 2023 4 1 ≡ gregorian_to_jalali 2023 3 31
gregorian_to_jalali-next_example =
    gregorian_to_jalali-next march_31 march_31-IsGregorian (omega arith)
