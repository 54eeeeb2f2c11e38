-- ===== src/Budgets/Upsert.antt =====
-- What a key's settings are after `upsert` of crates/heterion-router-gateway/src/budgets.rs, as the reads
-- of the enforcement find them.
use heterion_router.Prelude.{ℕ, zero, suc, ◌≡◌, Option, none, some, Text}
use heterion_router.Json.{unwrap_or}
use heterion_router.Budgets.Calendar.{Period}
use heterion_router.Budgets.Judge.{
  Floats, BudgetRow, Store, normalize_limit, limit_of, limit_for, map_budget, get_budget,
}
use heterion_router.Budgets.Admin.{
  BudgetBody, Writes, Outcome, configured, internal_error, updated_row, row_or_new, body_of,
}

-- The ceiling that a stored one is read as: a number below 1 is none.
abbrev pub ceiling_of : Option ℕ → Option ℕ
ceiling_of none = none
ceiling_of (some zero) = none
ceiling_of (some (suc n)) = some (suc n)

module _ {F Db : Type 0} (floats : Floats F) (store : Store Db F) (writes : Writes Db F) where
  -- What the statements do to what is read later.
  pub record Laws : Type 0 where
    pub own_key :
        (db : Db) (key : Text) (row : BudgetRow F)
        → store.stored_row db key ≡ some (some row)
        → row.api_key_id ≡ key
    -- The caps and the threshold are stored normalized, as `map_budget` reads them.
    pub writes_row :
        (db after : Db) (row : BudgetRow F)
        → writes.upsert_budget db row ≡ some after
        → store.stored_row after row.api_key_id ≡ some (some (map_budget floats row))
    pub keeps_ceiling :
        (db after : Db) (row : BudgetRow F) (key : Text)
        → writes.upsert_budget db row ≡ some after
        → store.rpm_limit after key ≡ store.rpm_limit db key
    pub sets_ceiling :
        (db after : Db) (key : Text) (rpm : Option ℕ)
        → writes.set_rpm_limit db key rpm ≡ some after
        → store.rpm_limit after key ≡ some (ceiling_of rpm)
    pub keeps_row :
        (db after : Db) (key other : Text) (rpm : Option ℕ)
        → writes.set_rpm_limit db key rpm ≡ some after
        → store.stored_row after other ≡ store.stored_row db other

  module _ (laws : Laws) (key : Text) (body : BudgetBody F) (db : Db) where
    -- The key's row before the request, a new one where there is none or it cannot be read.
    abbrev pub before : BudgetRow F
    before = row_or_new floats store writes key (get_budget floats store db key)

    -- The cap of the request, or else the one before.
    abbrev pub cap : Period → F
    cap p = unwrap_or (body_of body p) (limit_of floats before p)

    -- The key has a budget row with these caps, and its warning is armed.
    pub record Applied (after : Db) : Type 0 where
      pub row : BudgetRow F
      pub found : get_budget floats store after key ≡ some (some row)
      pub caps : (p : Period) → limit_for floats row p ≡ normalize_limit floats (cap p)
      pub armed : row.warning_period_start ≡ none

    pub data Settled : Db × Outcome F → Type 0 where
      not_written :
          writes.upsert_budget db (updated_row body before) ≡ none → Settled (db, internal_error)
      half_written :
          {mid : Db}
          → Applied mid
          → store.rpm_limit mid key ≡ store.rpm_limit db key
          → writes.set_rpm_limit mid key body.rpm ≡ none
          → Settled (mid, internal_error)
      settled :
          {after : Db} {row : BudgetRow F}
          → Applied after
          → store.rpm_limit after key ≡ some (ceiling_of body.rpm)
          → ((p : Period) → limit_of floats row p ≡ cap p)
          → Settled (after, configured row)
