-- ===== src/Budgets/Admin.antt =====
-- Configuring a budget: `BudgetBody`, `upsert` and `remove` in crates/heterion-router-gateway/src/budgets.rs,
-- lines 541-553 and 590-658. The statements are the parameter `Writes`, `none` where one fails.
use heterion_router.Prelude.{ℕ, ◌≡◌, refl, Bool, false, Option, none, some, Text}
use heterion_router.Json.{unwrap_or}
use heterion_router.Budgets.Calendar.{Period, daily, weekly, monthly}
use heterion_router.Budgets.Judge.{Floats, BudgetRow, Store, for_key, get_budget, limit_of}

pub record BudgetBody (F : Type 0) : Type 0 where
  pub daily_limit_usd : Option F
  pub weekly_limit_usd : Option F
  pub monthly_limit_usd : Option F
  pub warning_threshold : Option F
  pub rpm : Option ℕ

pub record Writes (Db F : Type 0) : Type 0 where
  pub upsert_budget : Db → BudgetRow F → Option Db
  -- `none` for the ceiling deletes it.
  pub set_rpm_limit : Db → Text → Option ℕ → Option Db
  pub delete_budget : Db → Text → Option (Db × Bool)

-- What the administration answers.
pub data Outcome (F : Type 0) : Type 0 where
  configured : BudgetRow F → Outcome F
  removed : Bool → Outcome F
  unavailable internal_error : Outcome F

-- The new row of `upsert`.
unfoldable pub updated_row : {F : Type 0} → BudgetBody F → BudgetRow F → BudgetRow F
updated_row body current = record current {
  daily_limit_usd = unwrap_or body.daily_limit_usd current.daily_limit_usd;
  weekly_limit_usd = unwrap_or body.weekly_limit_usd current.weekly_limit_usd;
  monthly_limit_usd = unwrap_or body.monthly_limit_usd current.monthly_limit_usd;
  warning_threshold = unwrap_or body.warning_threshold current.warning_threshold;
  warning_emitted_at = none;
  warning_period_start = none;
}

module _ {F Db : Type 0} (floats : Floats F) (store : Store Db F) (writes : Writes Db F) where
  -- `get_budget(…).ok().flatten().unwrap_or_else(…)`.
  abbrev pub row_or_new : Text → Option (Option (BudgetRow F)) → BudgetRow F
  row_or_new key none = for_key floats key
  row_or_new key (some none) = for_key floats key
  row_or_new key (some (some row)) = row

  abbrev pub with_rpm : Db → BudgetRow F → Option Db → Db × Outcome F
  with_rpm db row none = (db, internal_error)
  with_rpm db row (some after) = (after, configured row)

  abbrev pub with_row : Db → Text → Option ℕ → BudgetRow F → Option Db → Db × Outcome F
  with_row db key rpm row none = (db, internal_error)
  with_row db key rpm row (some after) = with_rpm after row (writes.set_rpm_limit after key rpm)

  -- `upsert`, with a database.
  unfoldable pub upsert : Text → BudgetBody F → Db → Db × Outcome F
  upsert key body db =
      let row = updated_row body (row_or_new key (get_budget floats store db key)) in
      with_row db key body.rpm row (writes.upsert_budget db row)

  abbrev pub cleared : Db → Option Db → Db
  cleared db none = db
  cleared db (some after) = after

  abbrev pub deleted : Db → Text → Option (Db × Bool) → Db × Outcome F
  deleted db key none = (cleared db (writes.set_rpm_limit db key none), removed false)
  deleted db key (some (after, existed)) =
      (cleared after (writes.set_rpm_limit after key none), removed existed)

  -- `remove`, with a database.
  unfoldable pub remove : Text → Db → Db × Outcome F
  remove key db = deleted db key (writes.delete_budget db key)

abbrev pub body_of : {F : Type 0} → BudgetBody F → Period → Option F
body_of body daily = body.daily_limit_usd
body_of body weekly = body.weekly_limit_usd
body_of body monthly = body.monthly_limit_usd

-- A cap that the request names is the new one, a cap that it leaves out stays, and the warning
-- is armed again.
pub updated_row-caps :
    {F : Type 0}
    → (floats : Floats F) (body : BudgetBody F) (current : BudgetRow F) (p : Period)
    → (limit_of floats (updated_row body current) p
        ≡ unwrap_or (body_of body p) (limit_of floats current p))
      × ((updated_row body current).warning_period_start ≡ none)
unfolding updated_row
updated_row-caps floats body current daily = (refl, refl)
updated_row-caps floats body current weekly = (refl, refl)
updated_row-caps floats body current monthly = (refl, refl)
