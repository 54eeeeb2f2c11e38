-- ===== src/Router/FirstMatch.antt =====
-- The first matching rule decides.
use heterion_router.Prelude.{
  ◌≡◌, ◌⊎◌, inl, inr, refl, ap, true, false, List, [], ◌∷◌, ◌++◌, Text, starts_with,
  starts_with_sound, map, Bool-cases,
}
use heterion_router.Router.{RouteRule, route_rules, lower_rule, new, route}

-- No rule of the list has a prefix of the model's name.
abbrev pub NoMatch : Text → List RouteRule → Type 0
NoMatch lower [] = Unit {0}
NoMatch lower (rule ∷ rules) = (starts_with rule.model_prefix lower ≡ false) × NoMatch lower rules

-- What a routing answer is: the backends of a matching rule with no match before it, or the default
-- chain where no rule matches.
abbrev pub Decides : List RouteRule → List Text → Text → List Text → Type 0
Decides rules default lower backends =
    ((before after : List RouteRule) × (rest : Text) × (rule : RouteRule) × (rules
        ≡ before ++ rule ∷ after)
      × NoMatch lower before
      × (lower ≡ rule.model_prefix ++ rest)
      × (backends ≡ rule.backends))
    ⊎ (NoMatch lower rules × (backends ≡ default))

route_hit :
    (rule : RouteRule) (rules : List RouteRule) (default : List Text) (lower : Text)
    → starts_with rule.model_prefix lower ≡ true
    → route_rules (rule ∷ rules) default lower ≡ rule.backends
unfolding route_rules
route_hit rule rules default lower e = rw e

route_miss :
    (rule : RouteRule) (rules : List RouteRule) (default : List Text) (lower : Text)
    → starts_with rule.model_prefix lower ≡ false
    → route_rules (rule ∷ rules) default lower ≡ route_rules rules default lower
unfolding route_rules
route_miss rule rules default lower e = rw e

route_rules-Decides :
    (rules : List RouteRule) (default : List Text) (lower : Text)
    → Decides rules default lower (route_rules rules default lower)
route_rules-Decides [] default lower = inr (tt, unfold route_rules in refl)
route_rules-Decides (rule ∷ rules) default lower =
    elim (Bool-cases (starts_with rule.model_prefix lower)) [
      | inl e ↦
          let (rest, q) = starts_with_sound rule.model_prefix lower e in
          rw (route_hit rule rules default lower e) (inl ([], rules, rest, rule, refl, tt, q, refl))
      | inr e ↦
          rw (route_miss rule rules default lower e)
            (later e (route_rules-Decides rules default lower))
    ]
  where
    later :
        starts_with rule.model_prefix lower ≡ false
        → Decides rules default lower (route_rules rules default lower)
        → Decides (rule ∷ rules) default lower (route_rules rules default lower)
    later e (inl (before, after, rest, hit, p, n, q, b)) =
        inl (rule ∷ before, after, rest, hit, ap (◌∷◌ rule) p, (e, n), q, b)
    later e (inr (n, b)) = inr ((e, n), b)

-- A router answers with the backends of its first rule whose lowercased prefix starts the lowercased
-- name of the model, and with the default chain exactly when no rule does so.
pub route-Decides :
    (to_lowercase : Text → Text) (rules : List RouteRule) (default : List Text) (model : Text)
    → Decides
        (map (lower_rule to_lowercase) rules)
        default
        (to_lowercase model)
        (route to_lowercase (new to_lowercase rules default) model)
unfolding new route
route-Decides to_lowercase rules default model =
    route_rules-Decides (map (lower_rule to_lowercase) rules) default (to_lowercase model)
