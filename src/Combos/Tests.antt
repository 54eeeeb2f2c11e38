-- ===== src/Combos/Tests.antt =====
-- A combo of two entries over a registry of one provider with an alias.
use heterion_router.Prelude.{
  ◌≡◌, refl, false, none, some, [], ◌∷◌, codes, text_eq, arith, lookup, insert,
}
use heterion_router.Prelude.Whitespace.{trim, is_whitespace}
use heterion_router.Json.{Value, items, get_field, object, field, end, array, nil}
use heterion_router.Registry.{
  ProviderEntry, ProviderRegistry, from_entries, index_ids, index_aliases, canonical_id,
  is_openai_format,
}
use heterion_router.Registry
use heterion_router.Combos.{
  ComboEntry, ComboDef, parse_combo, parse_combo_rich, parse_items, plan_steps, dispatch_backend,
  member,
}
use heterion_router.Combos.Parse.{IsEntry, row_of, parse_combo-row_of}
use heterion_router.Combos.Plan.{Plans, plan_steps-Plans}

abbrev deepseek : ProviderEntry
deepseek = record {
  id = codes "deepseek";
  alias = some (codes "ds");
  format = some (codes "openai");
  executor = none;
  auth_type = none;
  base_url = none;
  models = [];
}

abbrev registry : ProviderRegistry
registry = from_entries (deepseek ∷ [])

abbrev grok : ComboEntry
grok = record { provider = codes "grok-cli"; model = codes "grok-4.6" }

abbrev ds : ComboEntry
ds = record { provider = codes "ds"; model = codes "deepseek-chat" }

abbrev combo : ComboDef
combo = record {
  name = codes "coding";
  strategy = codes "priority";
  entries = grok ∷ ds ∷ [];
  config = record {
    max_retries = 2;
    retry_delay_ms = 50;
    failover_before_retry = false;
    max_set_retries = 1;
    set_retry_delay_ms = 10;
  };
}

grok-IsEntry : IsEntry grok
unfolding trim is_whitespace
grok-IsEntry = record {
  provider_some = λ e. cc;
  provider_slash = omega arith;
  provider_trimmed = refl;
  model_some = λ e. cc;
}

ds-IsEntry : IsEntry ds
unfolding trim is_whitespace
ds-IsEntry = record {
  provider_some = λ e. cc;
  provider_slash = omega arith;
  provider_trimmed = refl;
  model_some = λ e. cc;
}

parse_combo-row_of_example : parse_combo (codes "coding") (row_of combo) ≡ some combo
parse_combo-row_of_example =
    parse_combo-row_of combo (λ e. cc) (grok-IsEntry, (ds-IsEntry, tt)) (omega arith) (omega arith)

abbrev empty_row : Value
empty_row = object (field (codes "models") (array nil) end)

test_empty : parse_combo (codes "none") empty_row ≡ none
unfolding parse_combo parse_combo_rich parse_items items get_field text_eq
test_empty = refl

test_plan :
    plan_steps combo registry (codes "openai-compatible" ∷ codes "grok-cli" ∷ [])
    ≡ (codes "grok-cli", codes "grok-4.6") ∷ (codes "openai-compatible", codes "deepseek-chat") ∷ []
unfolding plan_steps dispatch_backend member canonical_id is_openai_format Registry.get from_entries
    index_ids index_aliases text_eq lookup insert
test_plan = refl

plan_steps-Plans_example :
    Plans registry
      (codes "grok-cli" ∷ [])
      combo.entries
      (plan_steps combo registry (codes "grok-cli" ∷ []))
plan_steps-Plans_example = plan_steps-Plans registry (codes "grok-cli" ∷ []) combo
