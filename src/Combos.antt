-- ===== src/Combos.antt =====
-- Combos: crates/heterion-router-gateway/src/combos.rs, lines 16-182 and 208-249. A row's `data`
-- column is the JSON value that it holds. `as u32` keeps the low 32 bits.
pub mod Parse
pub mod Plan
mod Tests
use heterion_router.Prelude.{
  ℕ, ◌+◌, ◌%◌, Bool, true, false, not, ltb, ◌&&◌, ◌||◌, Option, none, some, List, [], ◌∷◌, ◌++◌,
  Text, codes, text_eq, is_empty, ◌==◌, if◌then◌else◌, map,
}
use heterion_router.Prelude.Whitespace.{trim}
use heterion_router.Json.{
  Value, Fields, Number, null, bool, number, string, array, object, get, get_field, as_str,
  as_array, as_bool, as_object, as_u64, and_then, unwrap_or,
}
use heterion_router.Registry.{ProviderRegistry, canonical_id, is_openai_format}

pub record ComboConfig : Type 0 where
  pub max_retries : ℕ  -- u32
  pub retry_delay_ms : ℕ  -- u64
  pub failover_before_retry : Bool
  pub max_set_retries : ℕ  -- u32
  pub set_retry_delay_ms : ℕ  -- u64

-- `ComboConfig::default`.
abbrev pub default_config : ComboConfig
default_config = record {
  max_retries = 0;
  retry_delay_ms = 0;
  failover_before_retry = true;
  max_set_retries = 0;
  set_retry_delay_ms = 0;
}

pub record ComboEntry : Type 0 where
  pub provider : Text
  pub model : Text

pub record ComboDef : Type 0 where
  pub name : Text
  pub strategy : Text
  pub entries : List ComboEntry
  pub config : ComboConfig

-- The weight is an i64, kept as the number of the row.
pub record RichEntry : Type 0 where
  pub entry : ComboEntry
  pub id : Text
  pub weight : Number

abbrev cons_fst : ℕ → Option (Text × Text) → Option (Text × Text)
cons_fst c none = none
cons_fst c (some (a, b)) = some (c ∷ a, b)

-- `str::split_once` at a character.
unfoldable pub split_once : ℕ → Text → Option (Text × Text)
split_once sep [] = none
split_once sep (c ∷ s) = if c == sep then some ([], s) else cons_fst c (split_once sep s)

abbrev split_ref : Text → Option (Text × Text) → Text × Text
split_ref model_ref none = ([], model_ref)
split_ref model_ref (some (provider, rest)) = (provider, rest)

-- `split_model_ref`.
unfoldable pub split_model_ref : Text → Text × Text
split_model_ref model_ref = split_ref model_ref (split_once b'/' model_ref)

abbrev str_or_empty : Option Value → Text
str_or_empty v = unwrap_or (and_then v as_str) []

abbrev is_other_kind : Option Text → Bool
is_other_kind none = false
is_other_kind (some kind) = not (text_eq kind (codes "model"))

-- `Value::as_i64`: an integer in the range of an i64.
abbrev as_i64 : Value → Option Number
as_i64 (number (Number.nat n)) = if ltb n 9223372036854775808 then some (Number.nat n) else none
as_i64 (number (Number.neg n)) = if ltb n 9223372036854775808 then some (Number.neg n) else none
as_i64 (number (Number.float s)) = none
as_i64 null = none
as_i64 (bool b) = none
as_i64 (string s) = none
as_i64 (array vs) = none
as_i64 (object fs) = none

entry_of : Value → Text → Text → Option RichEntry
entry_of item provider bare =
    if is_empty provider || is_empty bare
    then none
    else some (record {
      entry = record { provider = provider; model = bare };
      id = str_or_empty (get (codes "id") item);
      weight = unwrap_or (and_then (get (codes "weight") item) as_i64) (Number.nat 0);
    })

-- One round of the loop of `parse_combo_rich`: `none` is `continue`.
unfoldable pub parse_item : Value → Option RichEntry
unfolding entry_of
parse_item item =
    let model_ref = str_or_empty (get (codes "model") item) in
    let (split_provider, bare) = split_model_ref model_ref in
    let declared = trim (str_or_empty (get (codes "providerId") item)) in
    if is_other_kind (and_then (get (codes "kind") item) as_str)
    then none
    else if is_empty model_ref
    then none
    else entry_of item (if is_empty declared then split_provider else declared) bare

abbrev cons_some : Option RichEntry → List RichEntry → List RichEntry
cons_some none es = es
cons_some (some e) es = e ∷ es

-- The loop of `parse_combo_rich`.
unfoldable pub parse_items : List Value → List RichEntry
unfolding parse_item
parse_items [] = []
parse_items (item ∷ rest) = cons_some (parse_item item) (parse_items rest)

abbrev with_strategy : Value → List RichEntry → Option (Text × List RichEntry)
with_strategy row [] = none
with_strategy row (e ∷ es) =
    some (unwrap_or (and_then (get (codes "strategy") row) as_str) (codes "priority"), e ∷ es)

-- `parse_combo_rich`.
unfoldable pub parse_combo_rich : Value → Option (Text × List RichEntry)
unfolding parse_items
parse_combo_rich row =
    and_then (and_then (get (codes "models") row) as_array)
      (λ models. with_strategy row (parse_items models))

abbrev as_u32 : ℕ → ℕ
as_u32 n = n % 4294967296

abbrev u64_or_zero : Option Value → ℕ
u64_or_zero v = unwrap_or (and_then v as_u64) 0

config_of : Option Fields → ComboConfig
config_of none = default_config
config_of (some c) = record {
  max_retries = as_u32 (u64_or_zero (get_field (codes "maxRetries") c));
  retry_delay_ms = u64_or_zero (get_field (codes "retryDelayMs") c);
  failover_before_retry =
      unwrap_or (and_then (get_field (codes "failoverBeforeRetry") c) as_bool) true;
  max_set_retries = as_u32 (u64_or_zero (get_field (codes "maxSetRetries") c));
  set_retry_delay_ms = u64_or_zero (get_field (codes "setRetryDelayMs") c);
}

-- `parse_combo_config`.
unfoldable pub parse_combo_config : Value → ComboConfig
unfolding config_of
parse_combo_config row = config_of (and_then (get (codes "config") row) as_object)

abbrev entry_only : RichEntry → ComboEntry
entry_only item = item.entry

-- `parse_combo`.
unfoldable pub parse_combo : Text → Value → Option ComboDef
parse_combo name row = and_then (parse_combo_rich row) (λ (strategy, rich). some (record {
  name = name;
  strategy = strategy;
  entries = map entry_only rich;
  config = parse_combo_config row;
}))

-- Whether a backend name is in the set of those that run.
unfoldable pub member : Text → List Text → Bool
member k [] = false
member k (j ∷ js) = text_eq j k || member k js

-- `dispatch_backend`.
unfoldable pub dispatch_backend : ComboEntry → ProviderRegistry → List Text → Option Text
dispatch_backend entry registry available =
    let provider = unwrap_or (canonical_id registry entry.provider) entry.provider in
    if member provider available
    then some provider
    else if is_openai_format registry provider && member (codes "openai-compatible") available
    then some (codes "openai-compatible")
    else none

abbrev cons_step : Text → Option Text → List (Text × Text) → List (Text × Text)
cons_step model none steps = steps
cons_step model (some backend) steps = (backend, model) ∷ steps

-- The loop of `plan_steps` over the entries.
unfoldable pub plan_entries : ProviderRegistry → List Text → List ComboEntry → List (Text × Text)
plan_entries registry available [] = []
plan_entries registry available (entry ∷ rest) =
    cons_step entry.model (dispatch_backend entry registry available)
      (plan_entries registry available rest)

-- `plan_steps`.
unfoldable pub plan_steps : ComboDef → ProviderRegistry → List Text → List (Text × Text)
unfolding plan_entries
plan_steps combo registry available = plan_entries registry available combo.entries
