-- ===== src/Budgets/Enforce.antt =====
-- The middleware in front of the endpoints that bill: `is_billable`, `enforce` and `refuse` in
-- crates/heterion-router-gateway/src/budgets.rs. The handlers behind it are
-- the parameter `next`; of a request the model keeps what the middleware reads, and of a response what it
-- reads or writes. Log lines and the text of the messages are left out.
use heterion_router.Prelude.{
  ℕ, Bool, false, not, ◌&&◌, ◌||◌, Option, none, some, List, [], ◌∷◌, Text, codes, text_eq,
  if◌then◌else◌,
}
use heterion_router.Auth
use heterion_router.Auth.{
  AuthKey, Authenticated, Admission, Rejection, admitted, rejected, from_request_parts,
}
use heterion_router.Budgets.Calendar.{Period}
use heterion_router.Budgets.Rpm.{Window, rpm_retry_after}
use heterion_router.Budgets.Judge.{
  Floats, Store, Verdict, allow, warn, blocked, evaluate, warn_once,
}

-- `BILLABLE_PATHS`.
abbrev pub billable_paths : List Text
billable_paths =
    codes "/v1/chat/completions"
    ∷ codes "/v1/responses"
    ∷ codes "/v1/messages"
    ∷ codes "/v1/embeddings"
    ∷ []

unfoldable pub one_of : Text → List Text → Bool
one_of path [] = false
one_of path (p ∷ ps) = text_eq p path || one_of path ps

-- `is_billable`.
unfoldable pub is_billable : Text → Text → Bool
is_billable method path = text_eq method (codes "POST") && one_of path billable_paths

pub record Request : Type 0 where
  pub method : Text
  pub path : Text
  pub authorization : Option Text

pub record State (Db : Type 0) : Type 0 where
  pub db : Option Db
  pub windows : List (Text × Window)

pub record Response (F : Type 0) : Type 0 where
  pub success : Bool
  pub cost : Option F
  pub budget_warning : Option (Period × F × F)

-- What the middleware answers: the handlers' response, or its own.
pub data Answer (F : Type 0) : Type 0 where
  served : Response F → Answer F
  unauthenticated : Rejection → Answer F
  -- Status 429, with the code and `retry_after`.
  refused : Text → Option ℕ → Answer F

module _ {F Db : Type 0} (floats : Floats F) (store : Store Db F) (auth_store : Auth.Store Db)
    (require_auth : Bool) (now : ℕ) (next : State Db → State Db × Response F) where
  abbrev pub pass : State Db × Response F → State Db × Answer F
  pass (s, response) = (s, served response)

  -- `refuse`: the rejection is logged unless the key asks for no log.
  abbrev pub refuse : State Db → Db → AuthKey → Text → Option ℕ → State Db × Answer F
  refuse s db key code retry_after = (
    record s { db = some (if key.no_log then db else store.record_call_log db key.id code) },
    refused code retry_after,
  )

  abbrev pub kept : Db → Option Db → Db
  kept db none = db
  kept db (some after) = after

  abbrev pub ledger : Text → Option Db → Option F → Option Db
  ledger key none cost = none
  ledger key (some db) none = some db
  ledger key (some db) (some cost) = some (kept db (store.record_cost db key cost now))

  -- The end of `enforce`: the marker and the ledger.
  abbrev pub account :
      AuthKey → Option (Period × F × F) → State Db × Response F → State Db × Answer F
  account key none (s, response) = (
    record s { db = if response.success then ledger key.id s.db response.cost else s.db },
    served response,
  )
  account key (some marker) (s, response) = (
    record s { db = if response.success then ledger key.id s.db response.cost else s.db },
    served (record response { budget_warning = some marker }),
  )

  abbrev pub warned : State Db → AuthKey → Period → F → F → Db × Bool → State Db × Answer F
  warned s key p spent limit (db, emitted) =
      account key (if emitted then some (p, spent, limit) else none)
        (next (record s { db = some db }))

  abbrev pub by_verdict : State Db → Db → AuthKey → Verdict F → State Db × Answer F
  by_verdict s db key allow = account key none (next s)
  by_verdict s db key (warn p spent limit) =
      warned s key p spent limit (warn_once floats store db key.id p now)
  by_verdict s db key (blocked p spent limit) = refuse s db key (codes "budget_exceeded") none

  abbrev pub by_rate : Db → AuthKey → State Db → Option ℕ → State Db × Answer F
  by_rate db key s (some retry_after) =
      refuse s db key (codes "rate_limit_exceeded") (some retry_after)
  by_rate db key s none = by_verdict s db key (evaluate floats store db key.id now)

  abbrev pub ceiling : Option (Option ℕ) → Option ℕ
  ceiling none = none
  ceiling (some limit) = limit

  -- The part of `enforce` for a request with a key.
  abbrev pub meter : State Db → Db → AuthKey → State Db × Answer F
  meter s db key =
      let (windows, verdict) =
        rpm_retry_after (ceiling (store.rpm_limit db key.id)) key.id now s.windows in
      by_rate db key (record s { windows = windows }) verdict

  abbrev pub by_key : State Db → Db → Option AuthKey → State Db × Answer F
  by_key s db none = pass (next s)
  by_key s db (some key) = meter s db key

  abbrev pub by_admission : State Db → Db × Admission Authenticated → State Db × Answer F
  by_admission s (db, rejected r) = (record s { db = some db }, unauthenticated r)
  by_admission s (db, admitted auth) = by_key (record s { db = some db }) db auth.key

  abbrev pub by_db : State Db → Option Text → Option Db → State Db × Answer F
  by_db s header none = pass (next s)
  by_db s header (some db) = by_admission s (from_request_parts auth_store db require_auth header)

  -- `enforce`.
  unfoldable pub enforce : Request → State Db → State Db × Answer F
  enforce request s =
      if not (is_billable request.method request.path)
      then pass (next s)
      else by_db s request.authorization s.db
