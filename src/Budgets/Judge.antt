-- ===== src/Budgets/Judge.antt =====
-- The verdict on a key's spending: `BudgetRow` and its methods in
-- crates/heterion-router-db/src/budget_repos.rs, and `Verdict`, `evaluate` and `warn_once` in
-- crates/heterion-router-gateway/src/budgets.rs. An f64 and its operations are
-- the parameter `Floats`; the database is the parameter `Store`, `none` where a statement fails.
use heterion_router.Prelude.{
  ℕ, Bool, true, false, not, ◌&&◌, ◌==◌, Option, none, some, List, [], ◌∷◌, Text, codes,
  if◌then◌else◌,
}
use heterion_router.Budgets.Calendar.{Period, daily, weekly, monthly, period_start}

pub record Floats (F : Type 0) : Type 0 where
  pub zero_usd : F
  pub default_warning_threshold : F
  pub is_finite : F → Bool
  pub is_positive : F → Bool
  pub ge : F → F → Bool
  pub mul : F → F → F
  -- `clamp(f64::MIN_POSITIVE, 1.0)`.
  pub clamp_fraction : F → F

pub record BudgetRow (F : Type 0) : Type 0 where
  pub api_key_id : Text
  pub daily_limit_usd : F
  pub weekly_limit_usd : F
  pub monthly_limit_usd : F
  pub warning_threshold : F
  pub reset_interval : Text
  pub reset_time : Text
  pub budget_reset_at : Option ℕ
  pub last_budget_reset_at : Option ℕ
  pub warning_emitted_at : Option ℕ
  pub warning_period_start : Option ℕ

pub record Store (Db F : Type 0) : Type 0 where
  -- The row of a key in `domain_budgets`, as it is stored.
  pub stored_row : Db → Text → Option (Option (BudgetRow F))
  pub spend_since : Db → Text → ℕ → Option F
  pub rpm_limit : Db → Text → Option (Option ℕ)
  pub mark_warning_emitted : Db → Text → ℕ → ℕ → Option Db
  pub record_cost : Db → Text → F → ℕ → Option Db
  -- The row of a rejection in `call_logs`.
  pub record_call_log : Db → Text → Text → Db

pub data Verdict (F : Type 0) : Type 0 where
  allow : Verdict F
  warn : Period → F → F → Verdict F
  blocked : Period → F → F → Verdict F

-- The periods in the order in which `evaluate` judges them.
abbrev pub all_periods : List Period
all_periods = daily ∷ weekly ∷ monthly ∷ []

module _ {F : Type 0} (floats : Floats F) where
  -- `normalize_limit`.
  unfoldable pub normalize_limit : F → F
  normalize_limit value =
      if floats.is_finite value && floats.is_positive value then value else floats.zero_usd

  -- `normalize_threshold`.
  unfoldable pub normalize_threshold : F → F
  normalize_threshold value =
      if not (floats.is_finite value)
      then floats.default_warning_threshold
      else floats.clamp_fraction value

  -- `BudgetRow::for_key`.
  abbrev pub for_key : Text → BudgetRow F
  for_key api_key_id = record {
    api_key_id = api_key_id;
    daily_limit_usd = floats.zero_usd;
    weekly_limit_usd = floats.zero_usd;
    monthly_limit_usd = floats.zero_usd;
    warning_threshold = floats.default_warning_threshold;
    reset_interval = codes "daily";
    reset_time = codes "00:00";
    budget_reset_at = none;
    last_budget_reset_at = none;
    warning_emitted_at = none;
    warning_period_start = none;
  }

  abbrev pub limit_of : BudgetRow F → Period → F
  limit_of row daily = row.daily_limit_usd
  limit_of row weekly = row.weekly_limit_usd
  limit_of row monthly = row.monthly_limit_usd

  -- `BudgetRow::limit_for`.
  unfoldable pub limit_for : BudgetRow F → Period → F
  limit_for row period = normalize_limit (limit_of row period)

  -- `BudgetRow::warning_fraction`.
  unfoldable pub warning_fraction : BudgetRow F → F
  warning_fraction row = normalize_threshold row.warning_threshold

  -- `map_budget`.
  unfoldable pub map_budget : BudgetRow F → BudgetRow F
  map_budget row = record row {
    daily_limit_usd = normalize_limit row.daily_limit_usd;
    weekly_limit_usd = normalize_limit row.weekly_limit_usd;
    monthly_limit_usd = normalize_limit row.monthly_limit_usd;
    warning_threshold = normalize_threshold row.warning_threshold;
  }

  module _ {Db : Type 0} (store : Store Db F) where
    abbrev pub mapped : Option (Option (BudgetRow F)) → Option (Option (BudgetRow F))
    mapped none = none
    mapped (some none) = some none
    mapped (some (some row)) = some (some (map_budget row))

    -- `get_budget`.
    unfoldable pub get_budget : Db → Text → Option (Option (BudgetRow F))
    get_budget db api_key_id = mapped (store.stored_row db api_key_id)

    abbrev pub no_warning : Option (Verdict F) → Bool
    no_warning none = true
    no_warning (some v) = false

    abbrev pub or_allow : Option (Verdict F) → Verdict F
    or_allow none = allow
    or_allow (some v) = v

    -- One round of the loop of `evaluate` with a cap, by what was spent: `rest` is the next round.
    abbrev pub judge_spent :
        BudgetRow F
        → Period
        → (Option (Verdict F) → Verdict F)
        → Option (Verdict F)
        → Option F
        → Verdict F
    judge_spent budget period rest warning none = allow
    judge_spent budget period rest warning (some spent) =
        let limit = limit_for budget period in
        if floats.ge spent limit
        then blocked period spent limit
        else rest (
            if floats.ge spent (floats.mul limit (warning_fraction budget)) && no_warning warning
            then some (warn period spent limit)
            else warning)

    -- The loop of `evaluate`.
    unfoldable pub judge :
        Db → Text → ℕ → BudgetRow F → List Period → Option (Verdict F) → Verdict F
    judge db key now budget [] warning = or_allow warning
    judge db key now budget (period ∷ periods) warning =
        let rest = judge db key now budget periods in
        if not (floats.is_positive (limit_for budget period))
        then rest warning
        else judge_spent budget period rest warning
            (store.spend_since db key (period_start period now))

    abbrev pub judge_row : Db → Text → ℕ → Option (Option (BudgetRow F)) → Verdict F
    judge_row db key now none = allow
    judge_row db key now (some none) = allow
    judge_row db key now (some (some budget)) = judge db key now budget all_periods none

    -- `evaluate`.
    unfoldable pub evaluate : Db → Text → ℕ → Verdict F
    evaluate db key now = judge_row db key now (get_budget db key)

    abbrev is_some : Option ℕ → Bool
    is_some none = false
    is_some (some at) = true

    abbrev is_start : Option ℕ → ℕ → Bool
    is_start none start = false
    is_start (some s) start = s == start

    abbrev pub already_warned : BudgetRow F → ℕ → Bool
    already_warned budget start =
        is_some budget.warning_emitted_at && is_start budget.warning_period_start start

    abbrev pub stamped : Db → Option Db → Db × Bool
    stamped db none = (db, false)
    stamped db (some after) = (after, true)

    abbrev pub warn_row : Db → Text → ℕ → ℕ → Option (Option (BudgetRow F)) → Db × Bool
    warn_row db key now start none = (db, false)
    warn_row db key now start (some none) = (db, false)
    warn_row db key now start (some (some budget)) =
        if already_warned budget start
        then (db, false)
        else stamped db (store.mark_warning_emitted db key now start)

    -- `warn_once`.
    unfoldable pub warn_once : Db → Text → Period → ℕ → Db × Bool
    warn_once db key period now = warn_row db key now (period_start period now) (get_budget db key)
