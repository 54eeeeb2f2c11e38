-- ===== src/Dispatch/Ring.antt =====
-- Who served which request: `Attribution` in crates/heterion-router-gateway/src/backend.rs, lines
-- 48-64, and the ring that routing.rs keeps of it, lines 30, 222-236 and 344-359.
use heterion_router.Prelude.{
  ℕ, Option, none, List, [], ◌∷◌, ◌++◌, Text, text_eq, if◌then◌else◌, leb, length,
}

pub record Attribution : Type 0 where
  pub provider : Option Text
  pub connection_id : Option Text
  pub combo_name : Option Text

-- `ATTRIBUTION_SLOTS`.
abbrev pub attribution_slots : ℕ
attribution_slots = 256

-- `Vec::remove(0)`.
abbrev pub remove_first : List (Text × Attribution) → List (Text × Attribution)
remove_first [] = []
remove_first (e ∷ es) = es

-- `retain(|(key, _)| key != token)`.
unfoldable pub without : Text → List (Text × Attribution) → List (Text × Attribution)
without token [] = []
without token ((key, a) ∷ es) =
    let rest = without token es in if text_eq key token then rest else (key, a) ∷ rest

-- The part of `attribute` under the lock.
unfoldable pub remember : Text → Attribution → List (Text × Attribution) → List (Text × Attribution)
remember token attribution entries =
    let room = if leb attribution_slots (length entries) then remove_first entries else entries in
    without token room ++ (token, attribution) ∷ []

abbrev pub no_attribution : Attribution
no_attribution = record { provider = none; connection_id = none; combo_name = none }

-- `attribution`.
unfoldable pub attribution : List (Text × Attribution) → Text → Attribution
attribution [] token = no_attribution
attribution ((key, a) ∷ es) token = if text_eq key token then a else attribution es token
