-- ===== src/Auth/Access.antt =====
-- Who is let in.
use heterion_router.Prelude.{
  ◌≡◌, ◌⊎◌, inl, inr, refl, sym, ◌∙◌, ap, Bool, true, false, not, ◌&&◌, Option, none, some, List,
  Text, codes, if◌then◌else◌,
}
use heterion_router.Auth.{
  AuthKey, Authenticated, Rejection, unauthorized, forbidden, auth_unavailable, status, Admission,
  admitted, rejected, Store, bearer_token, contains, has_scope, manage, found, with_token,
  when_keyed, from_request_parts, authenticate,
}

module _ {Db : Type 0} (store : Store Db) (require_auth : Bool) (header : Option Text) where
  -- The database answered whether there is a usable key, and a key is asked for: there is one, or
  -- keys are required.
  abbrev pub NeedsKey : Db → Type 0
  NeedsKey db =
      (key_exists : Bool) × (store.has_usable_api_key db ≡ some key_exists)
      × ((key_exists ≡ true) ⊎ (require_auth ≡ true))

  -- Why a request is let in or turned away, and what that does to the database.
  pub data Grounds : Option Db → Option Db × Admission Authenticated → Type 0 where
    no_database : Grounds none (none, admitted (record { key = none }))
    no_key_yet :
        {db : Db}
        → store.has_usable_api_key db ≡ some false
        → require_auth ≡ false
        → Grounds (some db) (some db, admitted (record { key = none }))
    valid_key :
        {db : Db} {token : Text} {key : AuthKey}
        → NeedsKey db
        → bearer_token header ≡ some token
        → store.find_usable_api_key db token ≡ some (some key)
        → Grounds
            (some db)
            (some (store.touch_api_key db key.id), admitted (record { key = some key }))
    invalid_key :
        {db : Db} {token : Text}
        → NeedsKey db
        → bearer_token header ≡ some token
        → store.find_usable_api_key db token ≡ some none
        → Grounds (some db) (some db, rejected (unauthorized (codes "invalid api key")))
    no_token :
        {db : Db}
        → NeedsKey db
        → bearer_token header ≡ none
        → Grounds (some db) (some db, rejected (unauthorized (codes "missing bearer token")))
    unreadable :
        {db : Db}
        → store.has_usable_api_key db ≡ none
        → Grounds (some db) (some db, rejected auth_unavailable)
    unreadable_key :
        {db : Db} {token : Text}
        → NeedsKey db
        → bearer_token header ≡ some token
        → store.find_usable_api_key db token ≡ none
        → Grounds (some db) (some db, rejected auth_unavailable)

  abbrev Kept : Db → Db × Admission Authenticated → Type 0
  Kept db (after, result) = Grounds (some db) (some after, result)

  found-Kept :
      (db : Db) (token : Text) (o : Option (Option AuthKey))
      → NeedsKey db
      → bearer_token header ≡ some token
      → store.find_usable_api_key db token ≡ o
      → Kept db (found store db o)
  found-Kept db token none k t e = unreadable_key k t e
  found-Kept db token (some none) k t e = invalid_key k t e
  found-Kept db token (some (some key)) k t e = valid_key k t e

  token-Kept :
      (db : Db) (o : Option Text)
      → NeedsKey db
      → bearer_token header ≡ o
      → Kept db (with_token store db o)
  token-Kept db none k e = no_token k e
  token-Kept db (some token) k e = found-Kept db token (store.find_usable_api_key db token) k e refl

  keyed-Kept :
      (db : Db) (key_exists required : Bool)
      → store.has_usable_api_key db ≡ some key_exists
      → require_auth ≡ required
      → Kept db (
          if not key_exists && not required
          then (db, admitted (record { key = none }))
          else with_token store db (bearer_token header))
  keyed-Kept db true required e r = token-Kept db (bearer_token header) (true, e, inl refl) refl
  keyed-Kept db false true e r = token-Kept db (bearer_token header) (false, e, inr r) refl
  keyed-Kept db false false e r = no_key_yet e r

  when_keyed-Kept :
      (db : Db) (o : Option Bool)
      → store.has_usable_api_key db ≡ o
      → Kept db (when_keyed store db require_auth header o)
  when_keyed-Kept db none e = unreadable e
  when_keyed-Kept db (some key_exists) e = keyed-Kept db key_exists require_auth e refl

  -- A request is let in without a key only when there is no database, or when the database answers
  -- that no usable key exists and keys are not required. It is let in with a key only when the
  -- database answers whether a usable key exists, a key is needed, and the bearer token is one that the
  -- database finds usable; the last use of that key is then noted. A query that fails, of either
  -- kind, answers that the authentication is unavailable and lets nobody in; a missing or unknown token
  -- is refused; no outcome but the noted use changes the database.
  pub authenticate-Grounds :
      (db : Option Db) → Grounds db (authenticate store db require_auth header)
  unfolding authenticate from_request_parts
  authenticate-Grounds none = no_database
  authenticate-Grounds (some db) = when_keyed-Kept db (store.has_usable_api_key db) refl

-- Who may manage.
pub data Manages (from_str : Text → Option (List Text))
    : Admission Authenticated → Admission Unit → Type 0 where
  anonymous : Manages from_str (admitted (record { key = none })) (admitted tt)
  scoped :
      {key : AuthKey} {scopes : List Text}
      → from_str key.scopes ≡ some scopes
      → contains (codes "manage") scopes ≡ true
      → Manages from_str (admitted (record { key = some key })) (admitted tt)
  unscoped :
      {key : AuthKey} {r : Rejection}
      → ((scopes : List Text)
          → from_str key.scopes ≡ some scopes
          → contains (codes "manage") scopes ≡ false)
      → status r ≡ 403
      → Manages from_str (admitted (record { key = some key })) (rejected r)
  refused : {r : Rejection} → Manages from_str (rejected r) (rejected r)

module _ (from_str : Text → Option (List Text)) where
  same_scopes : {a b : List Text} → some a ≡ some b → a ≡ b
  same_scopes q = cc q

  scopes-Manages :
      (key : AuthKey) (o : Option (List Text)) (b : Bool)
      → from_str key.scopes ≡ o
      → has_scope from_str o ≡ b
      → Manages from_str
          (admitted (record { key = some key }))
          (if b then admitted tt else rejected (forbidden (codes "manage scope required")))
  unfolding status
  scopes-Manages key none true e h = absurd (cc h)
  scopes-Manages key none false e h = unscoped (λ scopes f. absurd (cc (e, f))) refl
  scopes-Manages key (some scopes) true e h = scoped e h
  scopes-Manages key (some scopes) false e h =
      unscoped (λ t f. ap (contains (codes "manage")) (same_scopes (sym f ∙ e)) ∙ h) refl

  key-Manages :
      (k : Option AuthKey)
      → Manages from_str
          (admitted (record { key = k }))
          (manage from_str (admitted (record { key = k })))
  key-Manages none = anonymous
  key-Manages (some key) =
      scopes-Manages key (from_str key.scopes) (has_scope from_str (from_str key.scopes)) refl refl

  -- A request may manage the gateway exactly when it is authenticated and has no key or one whose
  -- scopes are a list with `manage`; a refusal for the scope is a 403, every other is the one of
  -- the authentication.
  pub manage-Manages : (a : Admission Authenticated) → Manages from_str a (manage from_str a)
  manage-Manages (rejected r) = refused
  manage-Manages (admitted auth) = key-Manages auth.key
