-- ===== src/Budgets/Calendar.antt =====
-- When a period starts: `period_start`, `days_from_civil` and `civil_from_days` in
-- crates/heterion-router-gateway/src/budgets.rs, and `Period` in
-- crates/heterion-router-db/src/budget_repos.rs. The clock reads 5 January 1970 or later, so that no number
-- here is negative and the branches for negative numbers do not run.
use heterion_router.Prelude.{ℕ, ◌+◌, ◌-◌, ◌*◌, ◌/◌, ◌%◌, leb, ltb, if◌then◌else◌, Text, codes}

pub data Period : Type 0 where
  daily weekly monthly : Period

-- `Period::as_str`.
unfoldable pub as_str : Period → Text
as_str daily = codes "daily"
as_str weekly = codes "weekly"
as_str monthly = codes "monthly"

pub record Date : Type 0 where
  pub year : ℕ
  pub month : ℕ
  pub day : ℕ

-- The days before a year of an era, which begins in March of year 0.
abbrev pub days_before : ℕ → ℕ
days_before year_of_era = year_of_era * 365 + year_of_era / 4 - year_of_era / 100

-- `days_from_civil`.
unfoldable pub days_from_civil : ℕ → ℕ → ℕ → ℕ
days_from_civil year0 month day =
    let year = if leb month 2 then year0 - 1 else year0 in
    let era = year / 400 in
    let year_of_era = year - era * 400 in
    let day_of_year = (153 * (if ltb 2 month then month - 3 else month + 9) + 2) / 5 + day - 1 in
    era * 146097 + (days_before year_of_era + day_of_year) - 719468

abbrev pub year_of : ℕ → ℕ
year_of day_of_era =
    (day_of_era - day_of_era / 1460 + day_of_era / 36524 - day_of_era / 146096) / 365

-- `civil_from_days`.
unfoldable pub civil_from_days : ℕ → Date
civil_from_days days =
    let shifted = days + 719468 in
    let era = shifted / 146097 in
    let day_of_era = shifted - era * 146097 in
    let year_of_era = year_of day_of_era in
    let year = year_of_era + era * 400 in
    let day_of_year = day_of_era - days_before year_of_era in
    let month_prime = (5 * day_of_year + 2) / 153 in
    let day = day_of_year - (153 * month_prime + 2) / 5 + 1 in
    let month = if ltb month_prime 10 then month_prime + 3 else month_prime - 9 in
    record { year = year + (if leb month 2 then 1 else 0); month = month; day = day }

-- `period_start`.
unfoldable pub period_start : Period → ℕ → ℕ
period_start daily now = now / 86400 * 86400
period_start weekly now = let day = now / 86400 in (day - (day + 3) % 7) * 86400
period_start monthly now =
    let date = civil_from_days (now / 86400) in days_from_civil date.year date.month 1 * 86400
