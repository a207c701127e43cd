-- ===== src/Calendar/Cycle.antt =====
-- `gregorianToJalali` of shared/pkg/jalali/jalali.go: its second half goes through the days of a
-- calendar with a cycle of 33 years.
use microservice_metarang.Prelude.{
  ℕ, ◌+◌, ◌-◌, ◌*◌, ◌/◌, ◌%◌, ◌≤◌, ◌<◌, Bool, false, ◌&&◌, ◌≡◌, refl, sym, ◌∙◌, ap, ◌==◌, ltb, leb,
  if◌then◌else◌, arith, Bool-cases, inl, inr, ==_iff,
}
use microservice_metarang.Calendar.Jalali.{Date, month_and_day, within_four_years, of_days}

-- Of 33 years, counted from 0, the years 0, 4, ..., 28 have a day more.
abbrev pub is_long : ℕ → Bool
is_long n = n % 33 % 4 == 0 && ltb (n % 33) 32

-- Six months of 31 days, five of 30, and one of 29 or, in a long year, of 30.
abbrev pub month_length : Bool → ℕ → ℕ
month_length long m = if leb m 6 then 31 else if leb m 11 then 30 else if long then 30 else 29

abbrev pub next_in : Bool → Date → Date
next_in long d =
    if ltb d.day (month_length long d.month)
    then record d { day = d.day + 1 }
    else if ltb d.month 12
    then record d { month = d.month + 1; day = 1 }
    else record { year = d.year + 1; month = 1; day = 1 }

-- The day after, in a cycle that starts with the year `base`.
abbrev pub next_day : ℕ → Date → Date
next_day base d = next_in (is_long (d.year - base)) d

in_year :
    (long : Bool) (y k : ℕ)
    → k < (if long then 365 else 364)
    → month_and_day y (k + 1) ≡ next_in long (month_and_day y k)
in_year long y k h = ground (arith, h)

year_end :
    (long : Bool) (y k : ℕ)
    → k ≡ (if long then 365 else 364)
    → month_and_day (y + 1) 0 ≡ next_in long (month_and_day y k)
year_end long y k h = ground (arith, h)

-- The last day of a year, counted from 0.
abbrev last : Bool → ℕ
last long = if long then 365 else 364

next_day-month_and_day :
    (base x k : ℕ)
    → next_day base (month_and_day (base + x) k) ≡ next_in (is_long x) (month_and_day (base + x) k)
next_day-month_and_day base x k =
    ap (λ l. next_in l (month_and_day (base + x) k)) (ap is_long (year_of base x k))
  where
    year_of : (base x k : ℕ) → (month_and_day (base + x) k).year - base ≡ x
    year_of base x k = ground arith

same_year :
    (base x k : ℕ)
    → k < last (is_long x)
    → month_and_day (base + x) (k + 1) ≡ next_day base (month_and_day (base + x) k)
same_year base x k h = in_year (is_long x) (base + x) k h ∙ sym (next_day-month_and_day base x k)

next_year :
    (base x k : ℕ)
    → k ≡ last (is_long x)
    → month_and_day (base + (x + 1)) 0 ≡ next_day base (month_and_day (base + x) k)
next_year base x k h =
    ap (λ y. month_and_day y 0) (omega arith)
    ∙ year_end (is_long x) (base + x) k h
    ∙ sym (next_day-month_and_day base x k)

-- The years of a cycle by its blocks of four and the years of a block.
is_long-block :
    (q b e : ℕ) → b ≤ 8 → e ≤ 3 → (b == 8) ≡ false → is_long (33 * q + 4 * b + e) ≡ (e == 0)
is_long-block q b e h k l =
    let r : (33 * q + 4 * b + e) % 33 ≡ 4 * b + e = ground (arith, h, k, l) in
    rw r (ground (arith, h, k, l))

is_long-last : (q : ℕ) → is_long (33 * q + 32) ≡ false
is_long-last q = let r : (33 * q + 32) % 33 ≡ 32 = omega arith in rw r refl

-- The place of a day in a block.
abbrev year_in : ℕ → ℕ
year_in s = if ltb 365 s then (s - 1) / 365 else 0

abbrev day_in : ℕ → ℕ
day_in s = if ltb 365 s then (s - 1) % 365 else s

within_four_years_lem : (y s : ℕ) → within_four_years y s ≡ month_and_day (y + year_in s) (day_in s)
within_four_years_lem y s = elim (Bool-cases (ltb 365 s)) [
  | inl e ↦ rw e refl
  | inr e ↦ rw e (ap (λ y. month_and_day y s) (omega arith))
]

-- The day after in a block of four years, and after its last day.
within_block :
    (base q b s : ℕ)
    → b < 8
    → s < 1460
    → month_and_day (base + (33 * q + 4 * b + year_in (s + 1))) (day_in (s + 1))
      ≡ next_day base (month_and_day (base + (33 * q + 4 * b + year_in s)) (day_in s))
within_block base q b s h k =
    let long : is_long (33 * q + 4 * b + year_in s) ≡ (year_in s == 0) =
      is_long-block q b (year_in s) (omega arith) (ground arith) (ground arith) in
    elim (Bool-cases (day_in s == last (year_in s == 0))) [
      | inl e ↦
          let y : year_in (s + 1) ≡ year_in s + 1 = ground (arith, k, e) in
          let d : day_in (s + 1) ≡ 0 = ground (arith, k, e) in
          rw (y, d)
            (ap (λ x. month_and_day (base + x) 0) (omega arith)
              ∙ next_year base (33 * q + 4 * b + year_in s) (day_in s)
                  (rw long ((==_iff (day_in s) (last (year_in s == 0))).0 e)))
      | inr e ↦
          let y : year_in (s + 1) ≡ year_in s = ground (arith, k, e) in
          let d : day_in (s + 1) ≡ day_in s + 1 = ground (arith, k, e) in
          rw (y, d)
            (same_year base (33 * q + 4 * b + year_in s) (day_in s)
              (rw long (ground (arith, k, e))))
    ]

after_block :
    (base q b : ℕ)
    → b < 8
    → month_and_day (base + (33 * q + 4 * (b + 1) + year_in 0)) (day_in 0)
      ≡ next_day base (month_and_day (base + (33 * q + 4 * b + year_in 1460)) (day_in 1460))
after_block base q b h =
    ap (λ x. month_and_day (base + x) 0) (omega arith)
    ∙ next_year base (33 * q + 4 * b + 3) 364
        (rw (is_long-block q b 3 (omega arith) (omega arith) (ground arith)) refl)

-- The last block of a cycle has one year.
within_last :
    (base q s : ℕ)
    → s < 364
    → month_and_day (base + (33 * q + 4 * 8 + year_in (s + 1))) (day_in (s + 1))
      ≡ next_day base (month_and_day (base + (33 * q + 4 * 8 + year_in s)) (day_in s))
within_last base q s h =
    let y : year_in s ≡ 0 = ground arith in
    let d : day_in s ≡ s = ground arith in
    let y' : year_in (s + 1) ≡ 0 = ground arith in
    let d' : day_in (s + 1) ≡ s + 1 = ground arith in
    rw (y, d, y', d')
      (same_year base (33 * q + 32 + 0) s
        (rw (ap is_long {x = 33 * q + 32 + 0} {y = 33 * q + 32} (omega arith) ∙ is_long-last q) h))

after_last :
    (base q : ℕ)
    → month_and_day (base + (33 * (q + 1) + 4 * 0 + year_in 0)) (day_in 0)
      ≡ next_day base (month_and_day (base + (33 * q + 4 * 8 + year_in 364)) (day_in 364))
after_last base q =
    ap (λ x. month_and_day (base + x) 0) (omega arith)
    ∙ next_year base (33 * q + 32) 364 (rw (is_long-last q) refl)
    ∙ ap (λ x. next_day base (month_and_day (base + x) 364)) (omega arith)

-- A day by its cycle, its block and its place in that.
abbrev place : ℕ → ℕ → ℕ → ℕ → Date
place base q b s = month_and_day (base + (33 * q + 4 * b + year_in s)) (day_in s)

of_days-place :
    (base n : ℕ) → of_days base n ≡ place base (n / 12053) (n % 12053 / 1461) (n % 12053 % 1461)
unfolding of_days
of_days-place base n =
    within_four_years_lem _ (n % 12053 % 1461)
    ∙ ap (λ x. month_and_day x (day_in (n % 12053 % 1461))) (omega arith)

of_place :
    (base n q b s : ℕ)
    → n / 12053 ≡ q
    → n % 12053 / 1461 ≡ b
    → n % 12053 % 1461 ≡ s
    → of_days base n ≡ place base q b s
of_place base n q b s e f g = of_days-place base n ∙ rw (e, f, g) refl

-- The day after is the next place in the block, the first of the next block or of the next cycle.
pub of_days-next : (base n : ℕ) → of_days base (n + 1) ≡ next_day base (of_days base n)
of_days-next base n =
    let q = n / 12053 in
    let b = n % 12053 / 1461 in
    let s = n % 12053 % 1461 in
    rw (of_days-place base n) (elim (Bool-cases (ltb b 8)) [
      | inl e ↦ elim (Bool-cases (ltb s 1460)) [
        | inl f ↦
            of_place base (n + 1) q b (s + 1) (ground (arith, e, f)) (ground (arith, e, f))
              (ground (arith, e, f))
            ∙ within_block base q b s (ground (arith, e)) (ground (arith, f))
        | inr f ↦
            let t : 1460 ≡ s = ground (arith, f) in
            of_place base (n + 1) q (b + 1) 0 (omega (arith, t)) (ground (arith, e, t))
              (omega (arith, t))
            ∙ after_block base q b (ground (arith, e))
            ∙ ap (λ s. next_day base (place base q b s)) t
      ]
      | inr e ↦
          let u : 8 ≡ b = ground (arith, e) in
          elim (Bool-cases (ltb s 364)) [
            | inl f ↦
                of_place base (n + 1) q 8 (s + 1) (ground (arith, u, f)) (ground (arith, u, f))
                  (ground (arith, u, f))
                ∙ within_last base q s (ground (arith, f))
                ∙ ap (λ b. next_day base (place base q b s)) u
            | inr f ↦
                let t : 364 ≡ s = ground (arith, u, f) in
                of_place base (n + 1) (q + 1) 0 0 (omega (arith, t, u)) (omega (arith, t, u))
                  (omega (arith, t, u))
                ∙ after_last base q
                ∙ ap (λ b. next_day base (place base q b 364)) u
                ∙ ap (λ s. next_day base (place base q b s)) t
          ]
    ])
