-- ===== src/Dispatch/Resolve.antt =====
-- The plan for a requested model: `RoutingBackend`, `Plan`, `resolve` and `prefix_plan` in routing.rs,
-- lines 32-56, 290-360. Of a backend, `RoutingBackend` here keeps the name; a database is what
-- `load_combos` reads from it, `none` where it fails.
use heterion_router.Prelude.{
  Option, none, some, List, [], ◌∷◌, Text, codes, is_empty, lookup, map, if◌then◌else◌,
}
use heterion_router.Json.{and_then, unwrap_or}
use heterion_router.Router.{Router, route}
use heterion_router.Registry.{ProviderRegistry, canonical_id}
use heterion_router.Combos.{ComboConfig, ComboDef, default_config, split_once, member, plan_steps}
use heterion_router.Upstream.{GatewayError, upstream}

pub record Plan : Type 0 where
  pub config : ComboConfig
  pub steps : List (Text × Text)
  pub combo_name : Option Text

pub data Result (A : Type 0) : Type 0 where
  ok : A → Result A
  err : GatewayError → Result A

pub record RoutingBackend : Type 0 where
  pub backends : List Text
  pub router : Router
  pub db : Option (Option (List (Text × ComboDef)))
  pub registry : Option ProviderRegistry

module _ (to_lowercase : Text → Text) where
  -- `prefix_plan`.
  unfoldable pub prefix_plan : RoutingBackend → Text → List (Text × Text)
  prefix_plan self model = map (λ backend. (backend, model)) (route to_lowercase self.router model)

  abbrev pub prefix_only : RoutingBackend → Text → ComboConfig → Plan
  prefix_only self model config = record {
    config = config;
    steps = prefix_plan self model;
    combo_name = none;
  }

  abbrev pub canonical : RoutingBackend → Text → Text
  canonical self prefix =
      unwrap_or (and_then self.registry (λ registry. canonical_id registry prefix)) prefix

  -- The test of the first `if let`.
  abbrev pub direct_step : RoutingBackend → Option (Text × Text) → Option (Text × Text)
  direct_step self none = none
  direct_step self (some (prefix, rest)) =
      let provider = canonical self prefix in
      if is_empty rest
      then none
      else if member provider self.backends
      then some (provider, rest)
      else none

  abbrev pub combo_plan : RoutingBackend → Text → ComboConfig → List (Text × Text) → Plan
  combo_plan self model config [] = prefix_only self model config
  combo_plan self model config (step ∷ steps) = record {
    config = config;
    steps = step ∷ steps;
    combo_name = some model;
  }

  abbrev pub from_combo : RoutingBackend → Text → ProviderRegistry → Option ComboDef → Plan
  from_combo self model registry none = prefix_only self model default_config
  from_combo self model registry (some combo) =
      combo_plan self model combo.config (plan_steps combo registry self.backends)

  abbrev pub from_store :
      RoutingBackend
      → Text
      → Option (Option (List (Text × ComboDef)))
      → Option ProviderRegistry
      → Result Plan
  from_store self model none registry = ok (prefix_only self model default_config)
  from_store self model (some store) none = ok (prefix_only self model default_config)
  from_store self model (some none) (some registry) =
      err (upstream (codes "combo store unavailable"))
  from_store self model (some (some combos)) (some registry) =
      ok (from_combo self model registry (lookup model combos))

  abbrev pub or_store : RoutingBackend → Text → Option (Text × Text) → Result Plan
  or_store self model none = from_store self model self.db self.registry
  or_store self model (some step) =
      ok (record { config = default_config; steps = step ∷ []; combo_name = none })

  -- `resolve`.
  unfoldable pub resolve : RoutingBackend → Text → Result Plan
  resolve self model = or_store self model (direct_step self (split_once b'/' model))
