-- ===== src/Budgets/Starts.antt =====
-- When the period of a moment starts.
use heterion_router.Prelude.{ℕ, ◌+◌, ◌-◌, ◌*◌, ◌/◌, ◌%◌, ◌≤◌, ◌<◌, ◌≡◌, ◌∙◌, ap, arith}
use heterion_router.Budgets.Calendar.{
  Period, daily, weekly, monthly, days_before, days_from_civil, year_of, civil_from_days,
  period_start,
}
use heterion_router.Budgets.Months.{
  march_days, date_in, from_march, month_prime_in, march_days_le, year_of_in, days_before_le,
  day_of_year_in, civil_from_days-date_in, era_split, first_of_month,
}

-- The midnight, in UTC, at which the period of `now` starts.
pub data Starts (now start : ℕ) : Period → Type 0 where
  on_day : start % 86400 ≡ 0 → start ≤ now → now < start + 86400 → Starts now start daily
  -- 5 January 1970, day 4, was a Monday.
  on_monday :
      start % 86400 ≡ 0
      → start / 86400 % 7 ≡ 4
      → start ≤ now
      → now < start + 604800
      → Starts now start weekly
  on_first :
      start % 86400 ≡ 0
      → start ≤ now
      → civil_from_days (start / 86400) ≡ record (civil_from_days (now / 86400)) { day = 1 }
      → Starts now start monthly

-- The first day of the month of a day, as days of the era.
abbrev first_in : ℕ → ℕ
first_in d = let y = year_of d in days_before y + march_days ((5 * (d - days_before y) + 2) / 153)

first_in_le : (d : ℕ) → d < 146097 → first_in d ≤ d
first_in_le d h =
    omega
      (arith, march_days_le (d - days_before (year_of d)) (day_of_year_in d h), days_before_le d h)

-- A month that holds a day of 1970 or later begins in 1970 or later.
first_in_epoch : (d : ℕ) → d < 146097 → 135080 ≤ d → 135080 ≤ first_in d
first_in_epoch d h k = omega arith

first_epoch :
    (era d : ℕ) → d < 146097 → 719468 ≤ era * 146097 + d → 719468 ≤ era * 146097 + first_in d
first_epoch era d h k = omega (arith, first_in_epoch d h)

month_start :
    (era d : ℕ)
    → d < 146097
    → days_from_civil (date_in era d).year (date_in era d).month 1
      ≡ era * 146097 + first_in d - 719468
month_start era d h =
    let y = year_of d in
    let m = (5 * (d - days_before y) + 2) / 153 in
    let back : march_days m + 1 - 1 ≡ march_days m = omega arith in
    from_march era y m 1 (year_of_in d h) (month_prime_in (d - days_before y) (day_of_year_in d h))
      (omega arith)
    ∙ ap (λ k. era * 146097 + (days_before y + k) - 719468) back

-- The first day of the month of a day of an era, as a date.
month_start_date :
    (era d : ℕ)
    → d < 146097
    → 719468 ≤ era * 146097 + d
    → civil_from_days (days_from_civil (date_in era d).year (date_in era d).month 1)
      ≡ record (date_in era d) { day = 1 }
month_start_date era d h k =
    let y = year_of d in
    let m = (5 * (d - days_before y) + 2) / 153 in
    ap civil_from_days (month_start era d h)
    ∙ civil_from_days-date_in era (first_in d) (omega (arith, first_in_le d h, h))
        (first_epoch era d h k)
    ∙ first_of_month era y m (year_of_in d h)
        (month_prime_in (d - days_before y) (day_of_year_in d h))

date_of :
    (days : ℕ)
    → civil_from_days days ≡ date_in ((days + 719468) / 146097) ((days + 719468) % 146097)
date_of days =
    let era = (days + 719468) / 146097 in
    let d = (days + 719468) % 146097 in
    let h : d < 146097 = omega arith in
    ap civil_from_days (era_split days) ∙ civil_from_days-date_in era d h (omega arith)

abbrev first_day : ℕ → ℕ
first_day days = days_from_civil (civil_from_days days).year (civil_from_days days).month 1

first_day_le : (days : ℕ) → first_day days ≤ days
first_day_le days =
    let era = (days + 719468) / 146097 in
    let d = (days + 719468) % 146097 in
    let h : d < 146097 = omega arith in
    let e : first_day days ≡ era * 146097 + first_in d - 719468 =
      ap (λ t. days_from_civil t.year t.month 1) (date_of days) ∙ month_start era d h in
    omega (arith, e, era_split days, first_in_le d h)

first_day_date :
    (days : ℕ) → civil_from_days (first_day days) ≡ record (civil_from_days days) { day = 1 }
first_day_date days =
    let era = (days + 719468) / 146097 in
    let d = (days + 719468) % 146097 in
    let h : d < 146097 = omega arith in rw (date_of days) (month_start_date era d h (omega arith))

-- A period starts at a midnight in UTC that is not in the future: the day's own, the one of the last
-- Monday, or the one of the first day of the month of `now`'s date. This holds for every moment
-- from 5 January 1970 on.
pub period_start-Starts : (p : Period) (now : ℕ) → 345600 ≤ now → Starts now (period_start p now) p
unfolding period_start
period_start-Starts daily now h = on_day (omega arith) (omega arith) (omega arith)
period_start-Starts weekly now h =
    on_monday (omega arith) (omega (arith, h)) (omega arith) (omega (arith, h))
period_start-Starts monthly now h =
    let day : first_day (now / 86400) * 86400 / 86400 ≡ first_day (now / 86400) = omega arith in
    on_first (omega arith) (omega (arith, first_day_le (now / 86400)))
      (ap civil_from_days day ∙ first_day_date (now / 86400))
