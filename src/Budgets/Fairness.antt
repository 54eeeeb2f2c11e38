-- ===== src/Budgets/Fairness.antt =====
-- Why the ceiling and the budget of crates/heterion-router-gateway/src/budgets.rs let a request of a key
-- pass or refuse it.
use heterion_router.Prelude.{
  ℕ, ◌+◌, ◌-◌, ◌≤◌, ◌<◌, max, ◌≡◌, refl, sym, ◌∙◌, arith, Bool, Option, none, some, List, Text,
  codes, if◌then◌else◌,
}
use heterion_router.Auth
use heterion_router.Auth.{
  AuthKey, Authenticated, Admission, Rejection, admitted, rejected, from_request_parts,
}
use heterion_router.Budgets.Calendar.{Period}
use heterion_router.Budgets.Rpm.{Window, rpm_window_secs, charge, rpm_retry_after}
use heterion_router.Budgets.Windows.{IsMap, current, rpm_verdict}
use heterion_router.Budgets.Judge.{
  Floats, BudgetRow, Store, Verdict, allow, warn, blocked, get_budget, evaluate, warn_once,
}
use heterion_router.Budgets.Verdicts.{Over, Judged, by_row, no_row, evaluate-Judged}
use heterion_router.Budgets.Enforce.{
  State, Response, Answer, served, unauthenticated, refused, account, by_verdict, by_rate, ceiling,
  meter,
}

charge-full :
    (limit now retry_after : ℕ) (w : Window)
    → (charge limit now w).1 ≡ some retry_after
    → (limit ≤ w.used) × (retry_after ≡ max (w.started + rpm_window_secs - now) 1)
charge-full limit now retry_after w h = ground (arith, h)

charge-room : (limit now : ℕ) (w : Window) → (charge limit now w).1 ≡ none → w.used < limit
charge-room limit now w h = ground (arith, h)

module _ {F Db : Type 0} (floats : Floats F) (store : Store Db F) (auth_store : Auth.Store Db)
    (require_auth : Bool) (now : ℕ) (next : State Db → State Db × Response F) where
  -- Why a key is refused, with the code and the seconds to wait.
  pub data Reason (db : Db) (windows : List (Text × Window)) (key : AuthKey)
      : Text → Option ℕ → Type 0 where
    too_many :
        {limit retry_after : ℕ}
        → store.rpm_limit db key.id ≡ some (some limit)
        → limit ≤ (current key.id now windows).used
        → retry_after ≡ max ((current key.id now windows).started + rpm_window_secs - now) 1
        → Reason db windows key (codes "rate_limit_exceeded") (some retry_after)
    exhausted :
        {budget : BudgetRow F} {p : Period} {spent limit : F}
        → get_budget floats store db key.id ≡ some (some budget)
        → Over floats store db key.id now budget p spent limit
        → Reason db windows key (codes "budget_exceeded") none

  -- The key's window has room under its ceiling, if it has one.
  abbrev pub Room : Db → List (Text × Window) → AuthKey → Type 0
  Room db windows key =
      (limit : ℕ)
      → store.rpm_limit db key.id ≡ some (some limit)
      → (current key.id now windows).used < limit

  -- A refusal has a reason, and what is served had room.
  abbrev pub Fair : Db → List (Text × Window) → AuthKey → State Db × Answer F → Type 0
  Fair db windows key (s, served response) = Room db windows key
  Fair db windows key (s, unauthenticated r) = ⊥
  Fair db windows key (s, refused code retry_after) = Reason db windows key code retry_after

  account-Fair :
      (db : Db) (windows : List (Text × Window)) (key k : AuthKey)
      (marker : Option (Period × F × F)) (x : State Db × Response F)
      → Room db windows key
      → Fair db windows key (account floats store auth_store require_auth now next k marker x)
  account-Fair db windows key k none (s, response) room = room
  account-Fair db windows key k (some marker) (s, response) room = room

  blocked-Reason :
      (db : Db) (windows : List (Text × Window)) (key : AuthKey) (p : Period) (spent limit : F)
      → Judged floats store db key.id now (blocked p spent limit)
      → Reason db windows key (codes "budget_exceeded") none
  blocked-Reason db windows key p spent limit (by_row budget e (m, over)) = exhausted e over
  blocked-Reason db windows key p spent limit (no_row e o) = absurd (cc e)

  verdict-Fair :
      (db : Db) (windows : List (Text × Window)) (key : AuthKey) (s : State Db) (v : Verdict F)
      → Judged floats store db key.id now v
      → Room db windows key
      → Fair db windows key (by_verdict floats store auth_store require_auth now next s db key v)
  verdict-Fair db windows key s allow j room = account-Fair db windows key key none (next s) room
  verdict-Fair db windows key s (warn p spent limit) j room =
      let (after, emitted) = warn_once floats store db key.id p now in
      account-Fair db windows key key (if emitted then some (p, spent, limit) else none)
        (next (record s { db = some after })) room
  verdict-Fair db windows key s (blocked p spent limit) j room =
      blocked-Reason db windows key p spent limit j

  unlimited :
      (id : Text) (windows : List (Text × Window)) (r : ℕ)
      → (rpm_retry_after none id now windows).1 ≡ some r
      → ⊥
  unfolding rpm_retry_after
  unlimited id windows r h = cc h

  none-Room :
      (db : Db) (windows : List (Text × Window)) (key : AuthKey) (o : Option (Option ℕ))
      → IsMap windows
      → store.rpm_limit db key.id ≡ o
      → (rpm_retry_after
          (ceiling floats store auth_store require_auth now next o)
          key.id
          now
          windows).1
        ≡ none
      → Room db windows key
  none-Room db windows key none u e h limit q = absurd (cc (e, q))
  none-Room db windows key (some none) u e h limit q = absurd (cc (e, q))
  none-Room db windows key (some (some l)) u e h limit q =
      let same : l ≡ limit = cc (e, q) in
      rw (sym same) (
        charge-room l now (current key.id now windows)
          (sym (rpm_verdict l key.id now windows u) ∙ h))

  rate-Fair :
      (db : Db) (windows : List (Text × Window)) (key : AuthKey) (s : State Db)
      (o : Option (Option ℕ)) (verdict : Option ℕ)
      → IsMap windows
      → store.rpm_limit db key.id ≡ o
      → (rpm_retry_after
          (ceiling floats store auth_store require_auth now next o)
          key.id
          now
          windows).1
        ≡ verdict
      → Fair db windows key (by_rate floats store auth_store require_auth now next db key s verdict)
  rate-Fair db windows key s o none u e h =
      verdict-Fair db windows key s (evaluate floats store db key.id now)
        (evaluate-Judged floats store db key.id now) (none-Room db windows key o u e h)
  rate-Fair db windows key s (some (some limit)) (some r) u e h =
      let (full, wait) =
        charge-full limit now r (current key.id now windows)
          (sym (rpm_verdict limit key.id now windows u) ∙ h) in
      too_many e full wait
  rate-Fair db windows key s (some none) (some r) u e h = absurd (unlimited key.id windows r h)
  rate-Fair db windows key s none (some r) u e h = absurd (unlimited key.id windows r h)

  pub meter-Fair :
      (db : Db) (key : AuthKey) (s : State Db)
      → IsMap s.windows
      → Fair db s.windows key (meter floats store auth_store require_auth now next s db key)
  meter-Fair db key s u =
      let limit =
        ceiling floats store auth_store require_auth now next (store.rpm_limit db key.id) in
      let (windows, verdict) = rpm_retry_after limit key.id now s.windows in
      rate-Fair db s.windows key (record s { windows = windows }) (store.rpm_limit db key.id)
        verdict u refl refl
