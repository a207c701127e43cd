-- ===== src/Calendar/Days.antt =====
-- `gregorianToJalali` of shared/pkg/jalali/jalali.go: its first half counts the days of the Gregorian
-- calendar, but for March before a leap year.
use mathlib.Core.Path.{subst}
use microservice_metarang.Prelude.{
  ℕ, zero, suc, ◌+◌, ◌-◌, ◌≤◌, ◌<◌, Bool, true, false, ◌&&◌, ◌||◌, ◌≡◌, refl, sym, ◌∙◌, ap, ◌==◌,
  ==_iff, ltb, if◌then◌else◌, arith, Bool-cases, inl, inr,
}
use microservice_metarang.Calendar.Jalali.{Date, is_leap, count_days, of_days, gregorian_to_jalali}
use microservice_metarang.Calendar.Cycle.{next_day, of_days-next}

abbrev pub month_days : Bool → ℕ → ℕ
month_days leap m =
    if m == 2
    then (if leap then 29 else 28)
    else if m == 4 || (m == 6 || (m == 9 || m == 11))
    then 30
    else 31

pub record IsGregorian (d : Date) : Type 0 where
  pub month_from : 1 ≤ d.month
  pub month_to : d.month ≤ 12
  pub day_from : 1 ≤ d.day
  pub day_to : d.day ≤ month_days (is_leap d.year) d.month

abbrev pub next_gregorian : Date → Date
next_gregorian d =
    if ltb d.day (month_days (is_leap d.year) d.month)
    then record d { day = d.day + 1 }
    else if ltb d.month 12
    then record d { month = d.month + 1; day = 1 }
    else record { year = d.year + 1; month = 1; day = 1 }

-- How far the count goes from a day to the next one, by the month and the day, before a leap year or
-- not.
abbrev pub advance : Bool → ℕ → ℕ → ℕ
advance before_leap m d =
    if before_leap && (m == 2 && d == 28)
    then 2
    else if before_leap && (m == 3 && d == 31)
    then 0
    else 1

-- Within a month.
count_day : (y m d : ℕ) → 1 ≤ y → 1 ≤ d → count_days y m (d + 1) ≡ count_days y m d + 1
unfolding count_days
count_day y m d l h = ground (arith, l, h)

-- The first month, or a later one.
is_or_beyond : (P : ℕ → Type 0) (k m : ℕ) → k ≤ m → P k → (k < m → P m) → P m
is_or_beyond P k m h p q = elim (Bool-cases (k == m)) [
  | inl e ↦ subst P ((==_iff k m).0 e) p
  | inr e ↦ q (ground (arith, h, e))
]

-- From the last day of a month to the next month.
abbrev Turns : ℕ → ℕ → Type 0
Turns y m =
    count_days y (m + 1) 1
    ≡ count_days y m (month_days (is_leap y) m)
      + advance (is_leap (y + 1)) m (month_days (is_leap y) m)

count_month : (y m : ℕ) → 1 ≤ y → 1 ≤ m → m < 12 → Turns y m
unfolding count_days
count_month y m l h k = is_or_beyond (Turns y) 1 m h (ground (arith, l)) (λ a.
    is_or_beyond (Turns y) 2 m a (ground (arith, l)) (λ a.
      is_or_beyond (Turns y) 3 m a (ground (arith, l)) (λ a.
        is_or_beyond (Turns y) 4 m a (ground (arith, l)) (λ a.
          is_or_beyond (Turns y) 5 m a (ground (arith, l)) (λ a.
            is_or_beyond (Turns y) 6 m a (ground (arith, l)) (λ a.
              is_or_beyond (Turns y) 7 m a (ground (arith, l)) (λ a.
                is_or_beyond (Turns y) 8 m a (ground (arith, l)) (λ a.
                  is_or_beyond (Turns y) 9 m a (ground (arith, l)) (λ a.
                    is_or_beyond (Turns y) 10 m a (ground (arith, l)) (λ a.
                      is_or_beyond (Turns y) 11 m a (ground (arith, l))
                        (λ a. absurd (omega (arith, a, k)))))))))))))

count_year : (y : ℕ) → 1 ≤ y → count_days (y + 1) 1 1 ≡ count_days y 12 31 + 1
unfolding count_days
count_year y l = ground (arith, l)

same_leap : (y : ℕ) → is_leap (y + 1600) ≡ is_leap y
same_leap y = ground arith

in_month : (y m d : ℕ) → d < month_days (is_leap y) m → advance (is_leap (y + 1)) m d ≡ 1
in_month y m d h = ground (arith, h)

abbrev the_date : ℕ → ℕ → ℕ → Date
the_date y m d = record { year = y; month = m; day = d }

-- The count of a date, whose year is given from 1600 on.
abbrev date : ℕ → ℕ → ℕ → Date
date y m d = record { year = y + 1600; month = m; day = d }

abbrev counted : Date → ℕ
counted d = count_days (d.year - 1600) d.month d.day

counted_lem : (y m d : ℕ) → counted (date y m d) ≡ count_days y m d
counted_lem y m d = ap (λ x. count_days x m d) {x = y + 1600 - 1600} {y = y} (omega arith)

full_month : (n d : ℕ) → d ≤ n → ltb d n ≡ false → n ≡ d
full_month n d h e = ground (arith, h, e)

counted-next :
    (y m d : ℕ)
    → IsGregorian (date y m d)
    → 1 ≤ y
    → counted (next_gregorian (date y m d)) ≡ count_days y m d + advance (is_leap (y + 1)) m d
counted-next y m d g h =
    let leap = same_leap y in
    elim (Bool-cases (ltb d (month_days (is_leap y) m))) [
      | inl e ↦
          rw (leap, e, in_month y m d (ground (arith, e)))
            (counted_lem y m (d + 1) ∙ count_day y m d h g.day_from)
      | inr e ↦
          let full = full_month _ d (rw leap at g.day_to) e in
          elim (Bool-cases (ltb m 12)) [
            | inl f ↦
                rw (leap, e, f)
                  (counted_lem y (m + 1) 1
                    ∙ subst
                        (λ d.
                          count_days y (m + 1) 1 ≡ count_days y m d + advance (is_leap (y + 1)) m d)
                        full (count_month y m h g.month_from (ground (arith, f))))
            | inr f ↦
                let dec : 12 ≡ m = ground (arith, f, g.month_to) in
                let day : 31 ≡ d = ap (month_days (is_leap y)) dec ∙ full in
                rw (leap, e, f)
                  (ap (λ x. count_days x 1 1) {x = y + 1600 + 1 - 1600} {y = y + 1} (omega arith)
                    ∙ count_year y h
                    ∙ ground arith
                    ∙ ap (λ m. count_days y m 31 + advance (is_leap (y + 1)) m 31) dec
                    ∙ ap (λ d. count_days y m d + advance (is_leap (y + 1)) m d) day)
          ]
    ]

-- Some days later, in the cycle that starts with 979.
abbrev pub days_on : ℕ → Date → Date
days_on zero d = d
days_on (suc n) d = days_on n (next_day 979 d)

of_days-days_on : (k n : ℕ) → of_days 979 (n + k) ≡ days_on k (of_days 979 n)
of_days-days_on zero n = ap (of_days 979) {x = n + 0} {y = n} (omega arith)
of_days-days_on (suc k) n =
    ap (of_days 979) {x = n + suc k} {y = n + 1 + k} (omega arith)
    ∙ of_days-days_on k (n + 1)
    ∙ ap (days_on k) (of_days-next 979 n)

of_counted :
    (d : Date) → 1600 < d.year → gregorian_to_jalali d.year d.month d.day ≡ of_days 979 (counted d)
unfolding gregorian_to_jalali
of_counted d h = rw (ltb_true 1600 d.year h) refl
  where
    ltb_true : (a b : ℕ) → a < b → ltb a b ≡ true
    ltb_true a b h = ground (arith, h)

next_gregorian_later : (d : Date) → 1600 < d.year → 1600 < (next_gregorian d).year
next_gregorian_later d h = elim (Bool-cases (ltb d.day (month_days (is_leap d.year) d.month))) [
  | inl e ↦ rw e h
  | inr e ↦
      rw e (elim (Bool-cases (ltb d.month 12)) [ inl f ↦ rw f h | inr f ↦ rw f (omega (arith, h)) ])
]

abbrev Advances : Date → Type 0
Advances d =
    let n = next_gregorian d in
    gregorian_to_jalali n.year n.month n.day
    ≡ days_on (advance (is_leap (d.year + 1)) d.month d.day)
        (gregorian_to_jalali d.year d.month d.day)

date-Advances : (y m d : ℕ) → IsGregorian (date y m d) → 1 ≤ y → Advances (date y m d)
date-Advances y m d g h =
    let later : 1600 < y + 1600 = omega (arith, h) in
    let k = advance (is_leap (y + 1)) m d in
    let leap : is_leap (y + 1) ≡ is_leap (y + 1600 + 1) =
      sym (same_leap (y + 1)) ∙ ap is_leap {x = y + 1 + 1600} {y = y + 1600 + 1} (omega arith) in
    of_counted (next_gregorian (date y m d)) (next_gregorian_later (date y m d) later)
    ∙ ap (of_days 979) (counted-next y m d g h)
    ∙ of_days-days_on k (count_days y m d)
    ∙ ap (days_on k) (sym (of_counted (date y m d) later ∙ ap (of_days 979) (counted_lem y m d)))
    ∙ ap (λ b. days_on (advance b m d) (gregorian_to_jalali (y + 1600) m d)) leap

-- For the days of the Gregorian years from 1601 on: the result for the next day is the day after the
-- result, in a calendar of six months of 31 days, five of 30 and one of 29 or 30, of which the latter in
-- the years 0, 4, ..., 28 of a cycle of 33 years from 979. Before a leap year the result for the 1st of
-- March is one day further than that, and the 1st of April has the result of the 31st of March.
pub gregorian_to_jalali-next :
    (d : Date)
    → IsGregorian d
    → 1600 < d.year
    → let n = next_gregorian d in
      gregorian_to_jalali n.year n.month n.day
      ≡ days_on
          (advance (is_leap (d.year + 1)) d.month d.day)
          (gregorian_to_jalali d.year d.month d.day)
gregorian_to_jalali-next d g h =
    let same : date (d.year - 1600) d.month d.day ≡ d =
      ap (λ (y : ℕ). the_date y d.month d.day) {x = d.year - 1600 + 1600} {y = d.year}
        (omega (arith, h)) in
    subst Advances same (
      date-Advances (d.year - 1600) d.month d.day (subst IsGregorian (sym same) g)
        (omega (arith, h)))
