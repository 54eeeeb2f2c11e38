-- ===== src/Auth/Tests.antt =====
-- A database with one key, for the models of one provider, that may not manage.
use heterion_router.Prelude.{
  ℕ, ◌+◌, ◌≡◌, ◌↔◌, refl, true, false, Option, none, some, List, [], ◌∷◌, Text, codes, text_eq,
  starts_with, if◌then◌else◌,
}
use heterion_router.Prelude.Whitespace.{trim, trim_start, is_whitespace}
use heterion_router.Auth.{
  AuthKey, Authenticated, Store, admitted, matches_pattern, strip_suffix, any_matches, allows_model,
  manage, authenticate,
}
use heterion_router.Auth.Models.{Allowed, allows_model-Allowed}
use heterion_router.Auth.Access.{Grounds, authenticate-Grounds, Manages, manage-Manages}

abbrev from_str : Text → Option (List Text)
from_str s =
    if text_eq s (codes "[]")
    then some []
    else if text_eq s (codes "[x]")
    then some (codes "openai/*" ∷ [])
    else none

abbrev key : AuthKey
key = record {
  id = codes "k1";
  name = codes "test";
  scopes = codes "[]";
  allowed_models = codes "[x]";
  allowed_combos = codes "[]";
  no_log = false;
}

abbrev auth : Authenticated
auth = record { key = some key }

-- The database counts the touches.
abbrev store : Store ℕ
store = record {
  has_usable_api_key = λ db. some true;
  find_usable_api_key =
      λ db token. some (if text_eq token (codes "sk-test-123") then some key else none);
  touch_api_key = λ db id. db + 1;
}

test_allowed : allows_model from_str auth (codes "openai/gpt-4o") ≡ true
unfolding allows_model text_eq any_matches matches_pattern strip_suffix starts_with
test_allowed = refl

test_sibling : matches_pattern (codes "openai/*") (codes "openai-compatible") ≡ false
unfolding matches_pattern text_eq strip_suffix starts_with
test_sibling = refl

allows_model-Allowed_example :
    (allows_model from_str auth (codes "openai/gpt-4o") ≡ true)
    ↔ Allowed from_str auth (codes "openai/gpt-4o")
allows_model-Allowed_example = allows_model-Allowed from_str auth (codes "openai/gpt-4o")

authenticate-Grounds_example :
    Grounds store true
      (some (codes "Bearer sk-test-123"))
      (some 0)
      (authenticate store (some 0) true (some (codes "Bearer sk-test-123")))
authenticate-Grounds_example =
    authenticate-Grounds store true (some (codes "Bearer sk-test-123")) (some 0)

manage-Manages_example : Manages from_str (admitted auth) (manage from_str (admitted auth))
manage-Manages_example = manage-Manages from_str (admitted auth)

sk_trimmed : trim (codes "sk-test-123") ≡ codes "sk-test-123"
unfolding trim trim_start is_whitespace
sk_trimmed = refl
