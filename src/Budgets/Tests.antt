-- ===== src/Budgets/Tests.antt =====
-- Budgets in whole cents: an f64 that stays a natural number. The database is one budget row and what
-- was spent.
use heterion_router.Prelude.{
  ℕ, suc, ◌+◌, ◌-◌, ◌*◌, ◌/◌, ◌≤◌, min, ◌≡◌, refl, sym, ap, true, false, Option, none, some, List,
  [], ◌∷◌, Text, codes, text_eq, leb, ltb, if◌then◌else◌, arith, lookup, insert,
}
use heterion_router.Prelude.Whitespace.{trim, is_whitespace}
use heterion_router.Combos.{split_once}
use heterion_router.Dispatch.Request.{to_ascii_lowercase}
use heterion_router.Auth
use heterion_router.Auth.{AuthKey}
use heterion_router.Budgets.Calendar.{
  daily, monthly, days_from_civil, civil_from_days, period_start,
}
use heterion_router.Budgets.Months.{days_from_civil-civil_from_days}
use heterion_router.Budgets.Starts.{Starts, period_start-Starts}
use heterion_router.Budgets.Rpm.{Window, fresh, rpm_retry_after}
use heterion_router.Budgets.Windows.{IsMap, entries_of, current}
use heterion_router.Budgets.Quota.{served, asked, rpm_quota}
use heterion_router.Budgets.Judge.{
  Floats, BudgetRow, Store, warn, for_key, evaluate, warn_once, get_budget, map_budget,
  normalize_limit, normalize_threshold, limit_for, warning_fraction, judge,
}
use heterion_router.Budgets.Verdicts.{Judged, evaluate-Judged}
use heterion_router.Budgets.Warnings.{Stamps, warn_once-again}
use heterion_router.Budgets.Enforce.{
  Request, State, Response, refused, is_billable, one_of, enforce,
}
use heterion_router.Budgets.Admin.{BudgetBody, Writes, upsert}
use heterion_router.Budgets.Upsert.{ceiling_of}
use heterion_router.Budgets.Refusals.{Justified, enforce-Justified}

-- 2026-10-26 12:00:00 UTC, a Monday.
abbrev noon : ℕ
noon = 1793016000

test_month : civil_from_days (noon / 86400) ≡ record { year = 2026; month = 10; day = 26 }
unfolding civil_from_days
test_month = refl

days_from_civil-civil_from_days_example :
    days_from_civil
      (civil_from_days 20752).year
      (civil_from_days 20752).month
      (civil_from_days 20752).day
    ≡ 20752
days_from_civil-civil_from_days_example = days_from_civil-civil_from_days 20752

period_start-Starts_example : Starts noon (period_start monthly noon) monthly
period_start-Starts_example = period_start-Starts monthly noon (omega arith)

abbrev two : Text → ℕ
two key = 2

empty-IsMap : IsMap []
unfolding entries_of
empty-IsMap key = omega arith

none_open : current (codes "k") noon [] ≡ fresh noon
unfolding lookup
none_open = refl

rpm_quota_example :
    served two
      (codes "k")
      ((codes "k", noon)
        ∷ (codes "j", noon + 1)
        ∷ (codes "k", noon + 2)
        ∷ (codes "k", noon + 59)
        ∷ [])
      []
    ≡ min 2 (
        suc (
          asked
            (codes "k")
            ((codes "j", noon + 1) ∷ (codes "k", noon + 2) ∷ (codes "k", noon + 59) ∷ [])))
rpm_quota_example =
    rpm_quota two (codes "k") noon
      ((codes "j", noon + 1) ∷ (codes "k", noon + 2) ∷ (codes "k", noon + 59) ∷ []) [] empty-IsMap
      none_open
      (omega arith, omega arith, (omega arith, omega arith, (omega arith, omega arith, tt)))

abbrev full : List (Text × Window)
full = (codes "k", record { started = noon; used = 1 }) ∷ []

full-IsMap : IsMap full
unfolding entries_of
full-IsMap key = ground arith

full_started : (current (codes "k") (noon + 10) full).started ≤ noon + 10
unfolding lookup text_eq
full_started = omega arith

full_refused : (rpm_retry_after (some 1) (codes "k") (noon + 10) full).1 ≡ some 50
unfolding rpm_retry_after lookup insert text_eq
full_refused = refl

-- The warning fraction is 80 percent, whatever the row says.
abbrev cents : Floats ℕ
cents = record {
  zero_usd = 0;
  default_warning_threshold = 80;
  is_finite = λ x. true;
  is_positive = λ x. ltb 0 x;
  ge = λ a b. leb b a;
  mul = λ a b. a * b / 100;
  clamp_fraction = λ x. min x 100;
}

abbrev row : BudgetRow ℕ
row = record (for_key cents (codes "k1")) { daily_limit_usd = 1000; monthly_limit_usd = 5000 }

-- The row, what was spent since midnight and what was spent before.
abbrev Ledger : Type 0
Ledger = BudgetRow ℕ × ℕ × ℕ

abbrev store : Store Ledger ℕ
store = record {
  stored_row = λ db key. some (some db.0);
  spend_since = λ db key since. some (if leb (noon - 43200) since then db.1 else db.1 + db.2);
  rpm_limit = λ db key. some (some 2);
  mark_warning_emitted = λ db key now start. some (
    record db.0 { warning_emitted_at = some now; warning_period_start = some start },
    db.1,
    db.2,
  );
  record_cost = λ db key cost now. some (db.0, db.1 + cost, db.2);
  record_call_log = λ db key code. db;
}

abbrev start : Ledger
start = (row, 100, 4000)

-- The stamp of the daily warning takes the place of the monthly one, so that the next day the month
-- is warned of a second time.
abbrev warned_month : Ledger
warned_month = (warn_once cents store start (codes "k1") monthly noon).0

abbrev warned_day : Ledger
warned_day = (warn_once cents store warned_month (codes "k1") daily (noon + 3600)).0

test_month_again :
    ((warn_once cents store warned_month (codes "k1") monthly (noon + 3600)).1 ≡ false)
    × ((warn_once cents store warned_day (codes "k1") monthly (noon + 86400)).1 ≡ true)
unfolding warn_once get_budget map_budget period_start days_from_civil civil_from_days
test_month_again = (refl, refl)

test_verdict : evaluate cents store start (codes "k1") noon ≡ warn monthly 4100 5000
unfolding evaluate get_budget map_budget judge limit_for normalize_limit warning_fraction
    normalize_threshold period_start days_from_civil civil_from_days
test_verdict = refl

evaluate-Judged_example :
    Judged cents store start (codes "k1") noon (evaluate cents store start (codes "k1") noon)
evaluate-Judged_example = evaluate-Judged cents store start (codes "k1") noon

month_warned : warn_once cents store start (codes "k1") monthly noon ≡ (warned_month, true)
unfolding warn_once get_budget map_budget period_start days_from_civil civil_from_days
month_warned = refl

same_month : period_start monthly (noon + 3600) ≡ period_start monthly noon
unfolding period_start days_from_civil civil_from_days
same_month = refl

abbrev first_row : Option Ledger → Option (Option (BudgetRow ℕ))
first_row none = none
first_row (some db) = some (some db.0)

law : Stamps cents store
law db after key now s e = ap first_row (sym e)

-- A cost is recorded between the two calls.
abbrev spent_since : Ledger
spent_since = (warned_month.0, 900, 4000)

warn_once-again_example :
    warn_once cents store spent_since (codes "k1") monthly (noon + 3600) ≡ (spent_since, false)
warn_once-again_example =
    warn_once-again cents store start warned_month spent_since (codes "k1") monthly noon
      (noon + 3600) law same_month month_warned refl

abbrev keys : Auth.Store Ledger
keys = record {
  has_usable_api_key = λ db. some true;
  find_usable_api_key = λ db token. some (
      some (record {
        id = codes "k1";
        name = codes "test";
        scopes = [];
        allowed_models = [];
        allowed_combos = [];
        no_log = true;
      }));
  touch_api_key = λ db id. db;
}

abbrev next : State Ledger → State Ledger × Response ℕ
next s = (s, record { success = true; cost = some 7; budget_warning = none })

abbrev request : Request
request = record {
  method = codes "POST";
  path = codes "/v1/responses";
  authorization = some (codes "Bearer sk-test-123");
}

-- The key's window has counted as many requests as its ceiling has room for.
abbrev busy : State Ledger
busy = record { db = some start; windows = (codes "k1", record { started = noon; used = 2 }) ∷ [] }

busy-IsMap : IsMap busy.windows
unfolding entries_of
busy-IsMap key = ground arith

test_busy :
    (enforce cents store keys true (noon + 10) next request busy).1
    ≡ refused (codes "rate_limit_exceeded") (some 50)
unfolding enforce rpm_retry_after lookup insert text_eq is_billable one_of Auth.from_request_parts
    Auth.bearer_token split_once to_ascii_lowercase trim is_whitespace
test_busy = refl

enforce-Justified_example :
    Justified cents store keys true
      (noon + 10)
      next
      request
      busy
      busy-IsMap
      (enforce cents store keys true (noon + 10) next request busy)
enforce-Justified_example =
    enforce-Justified cents store keys true (noon + 10) next request busy busy-IsMap

-- A database of one key's row and a ceiling.
abbrev Settings : Type 0
Settings = BudgetRow ℕ × Option ℕ

abbrev settings : Store Settings ℕ
settings = record {
  stored_row = λ db key. some (if text_eq db.0.api_key_id key then some db.0 else none);
  spend_since = λ db key since. some 0;
  rpm_limit = λ db key. some db.1;
  mark_warning_emitted = λ db key now start. some db;
  record_cost = λ db key cost now. some db;
  record_call_log = λ db key code. db;
}

abbrev writes : Writes Settings ℕ
writes = record {
  upsert_budget = λ db row. some (map_budget cents row, db.1);
  set_rpm_limit = λ db key rpm. some (db.0, ceiling_of rpm);
  delete_budget = λ db key. some (db, true);
}

-- `{"daily_limit_usd": 5}` for a key with a ceiling of 60.
abbrev five : BudgetBody ℕ
five = record {
  daily_limit_usd = some 5;
  weekly_limit_usd = none;
  monthly_limit_usd = none;
  warning_threshold = none;
  rpm = none;
}

test_unlimited :
    settings.rpm_limit
      (upsert cents settings writes (codes "k1") five (row, some 60)).0
      (codes "k1")
    ≡ some none
unfolding upsert
test_unlimited = refl
