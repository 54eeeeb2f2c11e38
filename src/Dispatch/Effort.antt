-- ===== src/Dispatch/Effort.antt =====
-- Defaults by model family: `default_effort` and `needs_explicit_tool_choice` in
-- crates/heterion-router-gateway/src/reasoning.rs, lines 9-48.
use heterion_router.Prelude.{
  ◌≡◌, refl, Bool, true, false, ◌||◌, Option, none, some, Text, codes, ◌∙◌, ap, ◌++◌, starts_with,
  starts_with_sound, if◌then◌else◌,
}
use heterion_router.Dispatch.Request.{to_ascii_lowercase, bare_model, rejects_reasoning_effort}

abbrev family_effort : Text → Option Text
family_effort bare =
    if starts_with (codes "claude-opus") bare
    then some (codes "high")
    else if starts_with (codes "grok") bare
    then some (codes "medium")
    else if starts_with (codes "deepseek") bare
    then some (codes "medium")
    else if starts_with (codes "gemini") bare
    then some (codes "low")
    else none

-- `default_effort`.
unfoldable pub default_effort : Text → Option Text
default_effort model = family_effort (to_ascii_lowercase (bare_model model))

-- `needs_explicit_tool_choice`.
unfoldable pub needs_explicit_tool_choice : Text → Bool
needs_explicit_tool_choice model =
    starts_with (codes "codestral") (to_ascii_lowercase (bare_model model))

codestral_none : (rest : Text) → family_effort (codes "codestral" ++ rest) ≡ none
unfolding starts_with
codestral_none rest = refl

mistral_none : (rest : Text) → family_effort (codes "mistral" ++ rest) ≡ none
unfolding starts_with
mistral_none rest = refl

ministral_none : (rest : Text) → family_effort (codes "ministral" ++ rest) ≡ none
unfolding starts_with
ministral_none rest = refl

by_prefix :
    (prefix bare : Text)
    → ((rest : Text) → family_effort (prefix ++ rest) ≡ none)
    → starts_with prefix bare ≡ true
    → family_effort bare ≡ none
by_prefix prefix bare f h =
    let (rest, e) = starts_with_sound prefix bare h in ap family_effort e ∙ f rest

family_choice :
    (bare : Text) (a b c : Bool)
    → starts_with (codes "codestral") bare ≡ a
    → starts_with (codes "mistral") bare ≡ b
    → starts_with (codes "ministral") bare ≡ c
    → (a || b || c) ≡ true
    → family_effort bare ≡ none
family_choice bare true b c ea eb ec h = by_prefix (codes "codestral") bare codestral_none ea
family_choice bare false true c ea eb ec h = by_prefix (codes "mistral") bare mistral_none eb
family_choice bare false false true ea eb ec h =
    by_prefix (codes "ministral") bare ministral_none ec
family_choice bare false false false ea eb ec h = absurd (cc h)

-- The gateway presets no reasoning effort for a model that rejects the field.
pub default_effort-rejected :
    (model : Text) → rejects_reasoning_effort model ≡ true → default_effort model ≡ none
unfolding default_effort rejects_reasoning_effort
default_effort-rejected model h =
    let bare = to_ascii_lowercase (bare_model model) in
    family_choice bare (starts_with (codes "codestral") bare) (starts_with (codes "mistral") bare)
      (starts_with (codes "ministral") bare) refl refl refl h
