-- ===== src/Calendar/Jalali.antt =====
-- `gregorianToJalali` of shared/pkg/jalali/jalali.go, for the Gregorian years from 622 on: before
-- that the source counts with negative numbers.
use microservice_metarang.Prelude.{
  ℕ, ◌+◌, ◌-◌, ◌*◌, ◌/◌, ◌%◌, Bool, not, ◌&&◌, ◌||◌, ◌==◌, ltb, if◌then◌else◌,
}

pub record Date : Type 0 where
  pub year : ℕ
  pub month : ℕ
  pub day : ℕ

abbrev pub is_leap : ℕ → Bool
is_leap y = (y % 4 == 0 && not (y % 100 == 0)) || y % 400 == 0

-- The table of the days before a month; its entry for March is 60 if the flag is set.
abbrev pub days_before : Bool → ℕ → ℕ
days_before late month =
    if month == 1
    then 0
    else if month == 2
    then 31
    else if month == 3
    then (if late then 60 else 59)
    else if month == 4
    then 90
    else if month == 5
    then 120
    else if month == 6
    then 151
    else if month == 7
    then 181
    else if month == 8
    then 212
    else if month == 9
    then 243
    else if month == 10
    then 273
    else if month == 11
    then 304
    else 334

-- The year that the count starts from, and the one that it counts.
abbrev pub first_year : ℕ → ℕ
first_year gy = if ltb 1600 gy then 979 else 0

abbrev pub counted_year : ℕ → ℕ
counted_year gy = if ltb 1600 gy then gy - 1600 else gy - 621

unfoldable pub count_days : ℕ → ℕ → ℕ → ℕ
count_days gy gm gd =
    let late = ltb 2 gm && is_leap (gy + 1) in
    let gd' = if ltb 2 gm && is_leap gy then gd + 1 else gd in
    365 * gy + (gy + 3) / 4 - (gy + 99) / 100 + (gy + 399) / 400 + gd' + days_before late gm - 1

-- Month and day from the days of a year.
abbrev pub month_and_day : ℕ → ℕ → Date
month_and_day jy days =
    if ltb days 186
    then record { year = jy; month = 1 + days / 31; day = 1 + days % 31 }
    else record { year = jy; month = 7 + (days - 186) / 30; day = 1 + (days - 186) % 30 }

abbrev pub within_four_years : ℕ → ℕ → Date
within_four_years jy days =
    if ltb 365 days
    then month_and_day (jy + (days - 1) / 365) ((days - 1) % 365)
    else month_and_day jy days

unfoldable pub of_days : ℕ → ℕ → Date
of_days jy days =
    let rest = days % 12053 in
    within_four_years (jy + 33 * (days / 12053) + 4 * (rest / 1461)) (rest % 1461)

unfoldable pub gregorian_to_jalali : ℕ → ℕ → ℕ → Date
unfolding count_days of_days
gregorian_to_jalali gy gm gd = of_days (first_year gy) (count_days (counted_year gy) gm gd)
