-- ===== src/Auth.antt =====
-- API keys on requests: crates/heterion-router-gateway/src/auth.rs, lines 20-289. The database is
-- the parameter `Store`; a header that is missing or no text is `none`. `serde_json::from_str` to a
-- list of strings is the parameter `from_str`.
pub mod Patterns
pub mod Access
pub mod Bearer
pub mod Models
mod Tests
use heterion_router.Prelude.{
  ℕ, Bool, true, false, ◌&&◌, ◌||◌, not, Option, none, some, List, [], ◌∷◌, ◌++◌, Text, codes,
  text_eq, is_empty, starts_with, if◌then◌else◌,
}
use heterion_router.Prelude.Whitespace.{trim}
use heterion_router.Json.{and_then}
use heterion_router.Combos.{split_once}
use heterion_router.Dispatch.Request.{to_ascii_lowercase}

pub record AuthKey : Type 0 where
  pub id : Text
  pub name : Text
  pub scopes : Text
  pub allowed_models : Text
  pub allowed_combos : Text
  pub no_log : Bool

pub record Authenticated : Type 0 where
  pub key : Option AuthKey

abbrev pub cons_some : ℕ → Option Text → Option Text
cons_some c none = none
cons_some c (some s) = some (c ∷ s)

-- `str::strip_suffix`, for a suffix that is not empty.
unfoldable pub strip_suffix : Text → Text → Option Text
strip_suffix suffix [] = none
strip_suffix suffix (c ∷ s) =
    let rest = strip_suffix suffix s in if text_eq (c ∷ s) suffix then some [] else cons_some c rest

abbrev pub matches_prefix : Text → Text → Option Text → Bool
matches_prefix pattern value none = text_eq pattern value
matches_prefix pattern value (some prefix) =
    text_eq value prefix || starts_with (prefix ++ codes "/") value

-- `matches_pattern`.
unfoldable pub matches_pattern : Text → Text → Bool
matches_pattern pattern value =
    if text_eq pattern (codes "*")
    then true
    else matches_prefix pattern value (strip_suffix (codes "/*") pattern)

-- `iter().any(|pattern| matches_pattern(pattern, model))`.
unfoldable pub any_matches : List Text → Text → Bool
any_matches [] model = false
any_matches (p ∷ ps) model = matches_pattern p model || any_matches ps model

unfoldable pub contains : Text → List Text → Bool
contains scope [] = false
contains scope (s ∷ ss) = text_eq s scope || contains scope ss

abbrev pub is_nil : List Text → Bool
is_nil [] = true
is_nil (s ∷ ss) = false

pub data Rejection : Type 0 where
  unauthorized forbidden : Text → Rejection
  auth_unavailable : Rejection

-- The status of a rejection's response.
unfoldable pub status : Rejection → ℕ
status (unauthorized message) = 401
status (forbidden message) = 403
status auth_unavailable = 503

pub data Admission (A : Type 0) : Type 0 where
  admitted : A → Admission A
  rejected : Rejection → Admission A

-- The database's part: `none` where a query fails.
pub record Store (Db : Type 0) : Type 0 where
  pub has_usable_api_key : Db → Option Bool
  pub find_usable_api_key : Db → Text → Option (Option AuthKey)
  pub touch_api_key : Db → Text → Db

abbrev pub present : Text → Option Text
present token = if is_empty token then none else some token

-- `bearer_token`.
unfoldable pub bearer_token : Option Text → Option Text
bearer_token header = and_then (and_then header (split_once b' ')) (λ (scheme, token).
    if text_eq (to_ascii_lowercase scheme) (codes "bearer") then present (trim token) else none)

module _ (from_str : Text → Option (List Text)) where
  abbrev pub allows : Option (List Text) → Option (List Text) → Text → Bool
  allows none combos model = false
  allows (some models) none model = false
  allows (some models) (some combos) model =
      if is_nil models || any_matches models model then true else any_matches combos model

  abbrev pub key_allows : Option AuthKey → Text → Bool
  key_allows none model = true
  key_allows (some key) model =
      allows (from_str key.allowed_models) (from_str key.allowed_combos) model

  -- `Authenticated::allows_model`.
  unfoldable pub allows_model : Authenticated → Text → Bool
  allows_model auth model = key_allows auth.key model

  abbrev pub has_scope : Option (List Text) → Bool
  has_scope none = false
  has_scope (some scopes) = contains (codes "manage") scopes

  abbrev pub may_manage : Option AuthKey → Bool
  may_manage none = true
  may_manage (some key) = has_scope (from_str key.scopes)

  abbrev pub manage : Admission Authenticated → Admission Unit
  manage (rejected r) = rejected r
  manage (admitted auth) =
      if may_manage auth.key
      then admitted tt
      else rejected (forbidden (codes "manage scope required"))

module _ {Db : Type 0} (store : Store Db) where
  abbrev pub found : Db → Option (Option AuthKey) → Db × Admission Authenticated
  found db none = (db, rejected auth_unavailable)
  found db (some none) = (db, rejected (unauthorized (codes "invalid api key")))
  found db (some (some key)) = (store.touch_api_key db key.id, admitted (record { key = some key }))

  abbrev pub with_token : Db → Option Text → Db × Admission Authenticated
  with_token db none = (db, rejected (unauthorized (codes "missing bearer token")))
  with_token db (some token) = found db (store.find_usable_api_key db token)

  abbrev pub when_keyed : Db → Bool → Option Text → Option Bool → Db × Admission Authenticated
  when_keyed db require_auth header none = (db, rejected auth_unavailable)
  when_keyed db require_auth header (some key_exists) =
      if not key_exists && not require_auth
      then (db, admitted (record { key = none }))
      else with_token db (bearer_token header)

  -- `Authenticated::from_request_parts`, with a database.
  unfoldable pub from_request_parts : Db → Bool → Option Text → Db × Admission Authenticated
  from_request_parts db require_auth header =
      when_keyed db require_auth header (store.has_usable_api_key db)

  -- `Authenticated::from_request_parts`: without a database everything is open.
  unfoldable pub authenticate : Option Db → Bool → Option Text → Option Db × Admission Authenticated
  authenticate none require_auth header = (none, admitted (record { key = none }))
  authenticate (some db) require_auth header =
      let (after, result) = from_request_parts db require_auth header in (some after, result)

  -- `ManageAuthenticated::from_request_parts`.
  unfoldable pub authenticate_manager :
      (Text → Option (List Text)) → Option Db → Bool → Option Text → Option Db × Admission Unit
  authenticate_manager from_str db require_auth header =
      let (after, result) = authenticate db require_auth header in (after, manage from_str result)
