-- ===== src/Auth/Models.antt =====
-- Which models a key may use.
use heterion_router.Prelude.{
  ◌≡◌, ◌↔◌, refl, sym, ◌∙◌, ap, Bool, true, false, ◌||◌, Option, none, some, List, [], ◌∷◌, Text,
  if◌then◌else◌,
}
use mathlib.Core.List.{Memᴰ}
use heterion_router.Auth.{
  AuthKey, Authenticated, matches_pattern, any_matches, is_nil, allows, key_allows, allows_model,
}
use heterion_router.Auth.Patterns.{Matches, matches_pattern-Matches}

-- One of the patterns matches.
pub record Covered (patterns : List Text) (model : Text) : Type 0 where
  pub pattern : Text
  pub listed : Memᴰ pattern patterns
  pub covers : Matches pattern model

-- When a key's two lists allow a model.
pub data Listed (models combos : List Text) (model : Text) : Type 0 where
  unrestricted : models ≡ [] → Listed models combos model
  by_model : Covered models model → Listed models combos model
  by_combo : Covered combos model → Listed models combos model

pub data Allowed (from_str : Text → Option (List Text)) (auth : Authenticated) (model : Text)
    : Type 0 where
  anonymous : auth.key ≡ none → Allowed from_str auth model
  keyed :
      {key : AuthKey} {models combos : List Text}
      → auth.key ≡ some key
      → from_str key.allowed_models ≡ some models
      → from_str key.allowed_combos ≡ some combos
      → Listed models combos model
      → Allowed from_str auth model

later : {p : Text} {ps : List Text} {model : Text} → Covered ps model → Covered (p ∷ ps) model
later c = record { pattern = c.pattern; listed = Memᴰ.tail c.listed; covers = c.covers }

sound_go :
    (p : Text) (ps : List Text) (model : Text) (b : Bool)
    → matches_pattern p model ≡ b
    → (b || any_matches ps model) ≡ true
    → (any_matches ps model ≡ true → Covered ps model)
    → Covered (p ∷ ps) model
sound_go p ps model true e h ih = record {
  pattern = p;
  listed = Memᴰ.head refl;
  covers = (matches_pattern-Matches p model).0 e;
}
sound_go p ps model false e h ih = later (ih h)

any_sound : (ps : List Text) (model : Text) → any_matches ps model ≡ true → Covered ps model
unfolding any_matches
any_sound [] model h = absurd (cc h)
any_sound (p ∷ ps) model h =
    sound_go p ps model (matches_pattern p model) refl h (any_sound ps model)

or_right : (a b : Bool) → b ≡ true → (a || b) ≡ true
or_right true b h = refl
or_right false b h = h

any_complete :
    (ps : List Text) (p model : Text) → Memᴰ p ps → Matches p model → any_matches ps model ≡ true
unfolding any_matches
any_complete [] p model m c = elim m [ ]
any_complete (q ∷ ps) p model (Memᴰ.head e) c =
    rw (ap (λ t. matches_pattern t model) (sym e) ∙ (matches_pattern-Matches p model).1 c) refl
any_complete (q ∷ ps) p model (Memᴰ.tail m) c =
    or_right (matches_pattern q model) (any_matches ps model) (any_complete ps p model m c)

nil_true : (ms : List Text) → is_nil ms ≡ true → ms ≡ []
nil_true [] h = refl
nil_true (m ∷ ms) h = absurd (cc h)

any-Listed :
    (ms cs : List Text) (model : Text) (a b : Bool)
    → is_nil ms ≡ a
    → any_matches ms model ≡ b
    → (if a || b then true else any_matches cs model) ≡ true
    → Listed ms cs model
any-Listed ms cs model true b e f h = unrestricted (nil_true ms e)
any-Listed ms cs model false true e f h = by_model (any_sound ms model f)
any-Listed ms cs model false false e f h = by_combo (any_sound cs model h)

either_true : (b c : Bool) → c ≡ true → (if b then true else c) ≡ true
either_true true c h = refl
either_true false c h = h

Listed-any :
    (ms cs : List Text) (model : Text)
    → Listed ms cs model
    → (if is_nil ms || any_matches ms model then true else any_matches cs model) ≡ true
Listed-any ms cs model (unrestricted e) = rw e refl
Listed-any ms cs model (by_model c) =
    ap (λ b. if b then true else any_matches cs model)
      (or_right (is_nil ms) (any_matches ms model)
        (any_complete ms c.pattern model c.listed c.covers))
Listed-any ms cs model (by_combo c) =
    either_true (is_nil ms || any_matches ms model) (any_matches cs model)
      (any_complete cs c.pattern model c.listed c.covers)

module _ (from_str : Text → Option (List Text)) (auth : Authenticated) (model : Text) where
  lists_sound :
      (key : AuthKey) (ms cs : Option (List Text))
      → auth.key ≡ some key
      → from_str key.allowed_models ≡ ms
      → from_str key.allowed_combos ≡ cs
      → allows from_str ms cs model ≡ true
      → Allowed from_str auth model
  lists_sound key none cs k m c h = absurd (cc h)
  lists_sound key (some ms) none k m c h = absurd (cc h)
  lists_sound key (some ms) (some cs) k m c h =
      keyed k m c (any-Listed ms cs model (is_nil ms) (any_matches ms model) refl refl h)

  key_sound :
      (k : Option AuthKey)
      → auth.key ≡ k
      → key_allows from_str k model ≡ true
      → Allowed from_str auth model
  key_sound none e h = anonymous e
  key_sound (some key) e h =
      lists_sound key (from_str key.allowed_models) (from_str key.allowed_combos) e refl refl h

  Allowed-key : Allowed from_str auth model → key_allows from_str auth.key model ≡ true
  Allowed-key (anonymous e) = rw e refl
  Allowed-key (keyed {models = ms} {combos = cs} k m c l) = rw (k, m, c) (Listed-any ms cs model l)

  -- A key may use exactly the models that a pattern of its models or of its combos covers, and every
  -- model when it lists no models; with a list that is no list of strings it may use none. A
  -- request without a key may use every model.
  pub allows_model-Allowed : (allows_model from_str auth model ≡ true) ↔ Allowed from_str auth model
  unfolding allows_model
  allows_model-Allowed = (key_sound auth.key refl, Allowed-key)
