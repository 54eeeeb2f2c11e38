-- ===== src/Registry/Tests.antt =====
-- A registry of two providers whose aliases collide with an id.
use heterion_router.Prelude.{
  ◌≡◌, refl, none, some, List, [], ◌∷◌, Text, codes, text_eq, lookup, insert,
}
use heterion_router.Registry.{
  ProviderEntry, from_entries, get, canonical_id, index_ids, index_aliases,
}
use heterion_router.Registry.Canonical.{get-from_entries}

abbrev provider : Text → Text → ProviderEntry
provider id alias = record {
  id = id;
  alias = some alias;
  format = some (codes "openai");
  executor = none;
  auth_type = none;
  base_url = none;
  models = [];
}

-- The alias of the first entry is the id of the second.
abbrev entries : List ProviderEntry
entries = provider (codes "deepseek") (codes "pol") ∷ provider (codes "pol") (codes "pl") ∷ []

test_alias : canonical_id (from_entries entries) (codes "pl") ≡ some (codes "pol")
unfolding canonical_id get from_entries index_ids index_aliases text_eq lookup insert
test_alias = refl

get-from_entries_example :
    (get (from_entries entries) (codes "pol") ≡ some (provider (codes "pol") (codes "pl")))
    × (canonical_id (from_entries entries) (codes "pol") ≡ some (codes "pol"))
get-from_entries_example =
    get-from_entries entries 1 (provider (codes "pol") (codes "pl")) (((λ e. cc), tt), (tt, tt))
      refl
