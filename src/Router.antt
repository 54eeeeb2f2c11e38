-- ===== src/Router.antt =====
-- Model-prefix routing rules: crates/heterion-router-routing/src/router.rs, lines 8-50.
-- `str::to_lowercase`, a table of the standard library, is the parameter `to_lowercase`.
pub mod FirstMatch
mod Tests
use heterion_router.Prelude.{List, [], ◌∷◌, Text, starts_with, map, if◌then◌else◌}

pub record RouteRule : Type 0 where
  pub model_prefix : Text
  pub backends : List Text

pub record Router : Type 0 where
  pub rules : List RouteRule
  pub default_backends : List Text

-- The loop of `route` over the rules.
unfoldable pub route_rules : List RouteRule → List Text → Text → List Text
route_rules [] default lower = default
route_rules (rule ∷ rules) default lower =
    if starts_with rule.model_prefix lower then rule.backends else route_rules rules default lower

module _ (to_lowercase : Text → Text) where
  abbrev pub lower_rule : RouteRule → RouteRule
  lower_rule rule = record rule { model_prefix = to_lowercase rule.model_prefix }

  -- `Router::new`.
  unfoldable pub new : List RouteRule → List Text → Router
  new rules default_backends = record {
    rules = map lower_rule rules;
    default_backends = default_backends;
  }

  -- `Router::route`.
  unfoldable pub route : Router → Text → List Text
  route r model = route_rules r.rules r.default_backends (to_lowercase model)
