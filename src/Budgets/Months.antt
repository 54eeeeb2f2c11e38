-- ===== src/Budgets/Months.antt =====
-- The calendar's round trip, and what a period's start is.
use heterion_router.Prelude.{
  ℕ, ◌+◌, ◌-◌, ◌*◌, ◌/◌, ◌%◌, ◌≤◌, ◌<◌, ◌≡◌, refl, sym, ◌∙◌, ap, leb, ltb, if◌then◌else◌, arith,
}
use heterion_router.Budgets.Calendar.{Date, days_before, days_from_civil, year_of, civil_from_days}

pub year_of_in : (d : ℕ) → d < 146097 → year_of d ≤ 399
year_of_in d h = omega arith

pub days_before_le : (d : ℕ) → d < 146097 → days_before (year_of d) ≤ d
days_before_le d h = omega arith

pub day_of_year_in : (d : ℕ) → d < 146097 → d - days_before (year_of d) ≤ 365
day_of_year_in d h = omega arith

-- What a date within an era tells: the year of the era, the month from March and the day.
abbrev pub march_days : ℕ → ℕ
march_days month_prime = (153 * month_prime + 2) / 5

abbrev pub month_from : ℕ → ℕ
month_from m = if ltb m 10 then m + 3 else m - 9

abbrev pub early : ℕ → ℕ
early month = if leb month 2 then 1 else 0

-- `days_from_civil` on what `civil_from_days` returns, for a year and a month counted from March.
pub from_march :
    (era year_of_era m day : ℕ)
    → year_of_era ≤ 399
    → m ≤ 11
    → 1 ≤ day
    → days_from_civil (year_of_era + era * 400 + early (month_from m)) (month_from m) day
      ≡ era * 146097 + (days_before year_of_era + (march_days m + day - 1)) - 719468
unfolding days_from_civil
from_march era year_of_era m day hy hm hd = ground arith

pub month_prime_in : (doy : ℕ) → doy ≤ 365 → (5 * doy + 2) / 153 ≤ 11
month_prime_in doy h = omega arith

pub march_days_le : (doy : ℕ) → doy ≤ 365 → march_days ((5 * doy + 2) / 153) ≤ doy
march_days_le doy h = omega arith

-- The date of a day of an era.
abbrev pub date_in : ℕ → ℕ → Date
date_in era d =
    let y = year_of d in
    let doy = d - days_before y in
    let m = (5 * doy + 2) / 153 in
    record {
      year = y + era * 400 + early (month_from m);
      month = month_from m;
      day = doy - march_days m + 1;
    }

pub civil_from_days-date_in :
    (era d : ℕ)
    → d < 146097
    → 719468 ≤ era * 146097 + d
    → civil_from_days (era * 146097 + d - 719468) ≡ date_in era d
unfolding civil_from_days
civil_from_days-date_in era d h k =
    let back : era * 146097 + d - 719468 + 719468 ≡ era * 146097 + d = omega (arith, k) in
    let quotient : (era * 146097 + d) / 146097 ≡ era = omega (arith, h) in
    let rest : era * 146097 + d - era * 146097 ≡ d = omega arith in rw (back, quotient, rest) refl

days_from_civil-date_in :
    (era d : ℕ)
    → d < 146097
    → days_from_civil (date_in era d).year (date_in era d).month (date_in era d).day
      ≡ era * 146097 + d - 719468
days_from_civil-date_in era d h =
    let y = year_of d in
    let doy = d - days_before y in
    let m = (5 * doy + 2) / 153 in
    from_march era y m (doy - march_days m + 1) (year_of_in d h)
      (month_prime_in doy (day_of_year_in d h)) (omega arith)
    ∙ omega (arith, march_days_le doy (day_of_year_in d h), days_before_le d h)

pub era_split :
    (days : ℕ) → days ≡ (days + 719468) / 146097 * 146097 + (days + 719468) % 146097 - 719468
era_split days = omega arith

-- Counting the days of the date that a number of days stands for gives the number back.
pub days_from_civil-civil_from_days :
    (days : ℕ)
    → days_from_civil
        (civil_from_days days).year
        (civil_from_days days).month
        (civil_from_days days).day
      ≡ days
days_from_civil-civil_from_days days =
    let era = (days + 719468) / 146097 in
    let d = (days + 719468) % 146097 in
    let h : d < 146097 = omega arith in
    let e : civil_from_days days ≡ date_in era d =
      ap civil_from_days (era_split days) ∙ civil_from_days-date_in era d h (omega arith) in
    ap (λ t. days_from_civil t.year t.month t.day) e
    ∙ days_from_civil-date_in era d h
    ∙ sym (era_split days)

month_inverse : (m : ℕ) → m ≤ 11 → (5 * march_days m + 2) / 153 ≡ m
month_inverse m h = omega arith

year_inverse : (y r : ℕ) → y ≤ 399 → r ≤ 337 → year_of (days_before y + r) ≡ y
year_inverse y r h k = omega arith

-- The first day of a month is its own first day.
pub first_of_month :
    (era y m : ℕ)
    → y ≤ 399
    → m ≤ 11
    → date_in era (days_before y + march_days m)
      ≡ record { year = y + era * 400 + early (month_from m); month = month_from m; day = 1 }
first_of_month era y m hy hm =
    let rest : days_before y + march_days m - days_before y ≡ march_days m = omega arith in
    let one : march_days m - march_days m + 1 ≡ 1 = omega arith in
    rw (year_inverse y (march_days m) hy (omega (arith, hm)), rest, month_inverse m hm, one) refl
