-- ===== src/Auth/Bearer.antt =====
-- Reading the bearer token back.
use heterion_router.Prelude.{◌≡◌, ◌≢◌, refl, some, [], ◌∷◌, ◌++◌, Text, codes, text_eq}
use heterion_router.Prelude.Whitespace.{trim}
use heterion_router.Combos.{split_once}
use heterion_router.Dispatch.Request.{to_ascii_lowercase}
use heterion_router.Auth.{present, bearer_token}

present_lem : (token : Text) → token ≢ [] → present token ≡ some token
present_lem [] n = absurd (n refl)
present_lem (c ∷ s) n = refl

-- The token that a client writes behind `Bearer` and a space is the one that is looked up, when it
-- is not empty and has no white space around it.
pub bearer_token-header :
    (token : Text)
    → token ≢ []
    → trim token ≡ token
    → bearer_token (some (codes "Bearer " ++ token)) ≡ some token
unfolding bearer_token split_once to_ascii_lowercase text_eq
bearer_token-header token n t = rw t (present_lem token n)
