-- ===== src/Router/Tests.antt =====
-- The router of the unit tests, over ASCII.
use heterion_router.Prelude.{
  ℕ, ◌+◌, ◌≡◌, refl, ◌&&◌, List, [], ◌∷◌, Text, codes, map, leb, if◌then◌else◌, starts_with,
}
use heterion_router.Router.{RouteRule, new, route, route_rules, lower_rule}
use heterion_router.Router.FirstMatch.{Decides, route-Decides}

abbrev lower_char : ℕ → ℕ
lower_char c = if leb b'A' c && leb c b'Z' then c + 32 else c

abbrev lower : Text → Text
lower = map lower_char

abbrev rules : List RouteRule
rules =
    record { model_prefix = codes "Grok-"; backends = codes "grok-cli" ∷ codes "echo" ∷ [] } ∷ []

-- `prefix_rule_wins_case_insensitively`.
test_prefix :
    route lower (new lower rules (codes "echo" ∷ [])) (codes "grOK-4.6")
    ≡ codes "grok-cli" ∷ codes "echo" ∷ []
unfolding route new route_rules starts_with
test_prefix = refl

-- `unmatched_model_uses_default`.
test_default :
    route lower (new lower rules (codes "echo" ∷ [])) (codes "gpt-4o") ≡ codes "echo" ∷ []
unfolding route new route_rules starts_with
test_default = refl

route-Decides_example :
    Decides
      (map (lower_rule lower) rules)
      (codes "echo" ∷ [])
      (lower (codes "grOK-4.6"))
      (route lower (new lower rules (codes "echo" ∷ [])) (codes "grOK-4.6"))
route-Decides_example = route-Decides lower rules (codes "echo" ∷ []) (codes "grOK-4.6")
