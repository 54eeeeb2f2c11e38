-- ===== src/Registry.antt =====
-- The provider registry: crates/heterion-router-providers/src/registry.rs, lines 8-165, with the wire
-- formats of crates/heterion-router-core/src/format.rs. `registry.json`, which `load` parses, is data:
-- the entries are an argument of `from_entries`. The index `by_id` is a dictionary of positions.
pub mod Canonical
mod Tests
use heterion_router.Prelude.{
  ℕ, zero, suc, Bool, true, false, ◌||◌, Option, none, some, List, [], ◌∷◌, Text, codes, text_eq,
  is_empty, get_elem?, length, lookup, insert, if◌then◌else◌, map,
}
use heterion_router.Json.{and_then}
use mathlib.Core.Option

pub data WireFormat : Type 0 where
  open_ai open_ai_responses claude gemini antigravity : WireFormat

-- `WireFormat::as_str`.
unfoldable pub as_str : WireFormat → Text
as_str open_ai = codes "openai"
as_str open_ai_responses = codes "openai-responses"
as_str claude = codes "claude"
as_str gemini = codes "gemini"
as_str antigravity = codes "antigravity"

-- `needs_translation`.
unfoldable pub needs_translation : WireFormat → WireFormat → Bool
needs_translation open_ai open_ai = false
needs_translation _ _ = true

-- `parse_wire_format`.
unfoldable pub parse_wire_format : Text → Option WireFormat
parse_wire_format value =
    if text_eq value (codes "openai")
    then some open_ai
    else if text_eq value (codes "openai-responses")
    then some open_ai_responses
    else if text_eq value (codes "claude")
    then some claude
    else if text_eq value (codes "gemini")
    then some gemini
    else if text_eq value (codes "antigravity")
    then some antigravity
    else none

pub record RegistryModel : Type 0 where
  pub id : Text
  pub target_format : Option Text

pub record ProviderEntry : Type 0 where
  pub id : Text
  pub alias : Option Text
  pub format : Option Text
  pub executor : Option Text
  pub auth_type : Option Text
  pub base_url : Option Text
  pub models : List RegistryModel

pub record ProviderRegistry : Type 0 where
  pub entries : List ProviderEntry
  pub by_id : List (Text × ℕ)

-- The `collect` of `from_entries`: a later entry of an id replaces an earlier one.
unfoldable pub index_ids : ℕ → List ProviderEntry → List (Text × ℕ) → List (Text × ℕ)
index_ids index [] m = m
index_ids index (entry ∷ rest) m = index_ids (suc index) rest (insert entry.id index m)

abbrev or_insert : Text → ℕ → List (Text × ℕ) → Option ℕ → List (Text × ℕ)
or_insert k index m none = insert k index m
or_insert k index m (some found) = m

abbrev add_alias : ℕ → List (Text × ℕ) → Option Text → List (Text × ℕ)
add_alias index m none = m
add_alias index m (some alias) =
    if is_empty alias then m else or_insert alias index m (lookup alias m)

-- The loop of `from_entries` over the aliases.
unfoldable pub index_aliases : ℕ → List ProviderEntry → List (Text × ℕ) → List (Text × ℕ)
index_aliases index [] m = m
index_aliases index (entry ∷ rest) m =
    index_aliases (suc index) rest (add_alias index m entry.alias)

-- `ProviderRegistry::from_entries`.
unfoldable pub from_entries : List ProviderEntry → ProviderRegistry
from_entries entries = record {
  entries = entries;
  by_id = index_aliases 0 entries (index_ids 0 entries []);
}

-- `ProviderRegistry::get`.
unfoldable pub get : ProviderRegistry → Text → Option ProviderEntry
get r id = and_then (lookup id r.by_id) (λ index. get_elem? r.entries index)

-- `ProviderRegistry::canonical_id`.
unfoldable pub canonical_id : ProviderRegistry → Text → Option Text
canonical_id r provider = and_then (get r provider) (λ entry. some entry.id)

abbrev is_keyless : Option Text → Bool
is_keyless none = false
is_keyless (some auth_type) =
    text_eq auth_type (codes "optional") || text_eq auth_type (codes "none")

-- `ProviderRegistry::allows_keyless`.
unfoldable pub allows_keyless : ProviderRegistry → Text → Bool
allows_keyless r provider = is_keyless (and_then (get r provider) (λ entry. entry.auth_type))

find_model : Text → List RegistryModel → Option RegistryModel
find_model id [] = none
find_model id (m ∷ ms) = if text_eq m.id id then some m else find_model id ms

abbrev or_else : Option Text → Option Text → Option Text
or_else none b = b
or_else (some a) b = some a

-- `ProviderRegistry::model_target_format`.
unfoldable pub model_target_format : ProviderRegistry → Text → Text → Option Text
unfolding find_model
model_target_format r provider_id model_id = and_then (get r provider_id) (λ provider.
    and_then (find_model model_id provider.models) (λ m. or_else m.target_format provider.format))

-- `ProviderRegistry::model_wire_format`.
unfoldable pub model_wire_format : ProviderRegistry → Text → Text → Option WireFormat
model_wire_format r provider_id model_id =
    and_then (model_target_format r provider_id model_id) parse_wire_format

abbrev is_openai : Option Text → Bool
is_openai none = false
is_openai (some format) = text_eq format (codes "openai")

-- `ProviderRegistry::is_openai_format`.
unfoldable pub is_openai_format : ProviderRegistry → Text → Bool
is_openai_format r provider_id =
    is_openai (and_then (get r provider_id) (λ provider. provider.format))

-- `ProviderRegistry::base_url`.
unfoldable pub base_url : ProviderRegistry → Text → Option Text
base_url r provider_id =
    and_then (get r provider_id)
      (λ provider. and_then provider.base_url (λ url. if is_empty url then none else some url))
