-- ===== src/Combos/Plan.antt =====
-- What a plan is: the steps of the entries that a running backend can serve, in their order.
use heterion_router.Prelude.{
  ◌≡◌, ◌⊎◌, inl, inr, true, false, none, some, List, [], ◌∷◌, Text, codes, arith, Option-cases,
}
use heterion_router.Json.{unwrap_or}
use heterion_router.Registry.{ProviderRegistry, canonical_id, is_openai_format}
use heterion_router.Combos.{
  ComboEntry, ComboDef, member, dispatch_backend, plan_entries, plan_steps,
}

-- The id under which the registry knows an entry's provider, or its own spelling.
abbrev pub provider_of : ProviderRegistry → ComboEntry → Text
provider_of registry entry = unwrap_or (canonical_id registry entry.provider) entry.provider

abbrev pub shared_endpoint : Text
shared_endpoint = codes "openai-compatible"

-- A backend serves an entry: the provider's own backend, where it runs, and else the shared
-- endpoint for a provider of the OpenAI format.
pub data Serves (registry : ProviderRegistry) (available : List Text) (entry : ComboEntry)
    : Text → Type 0 where
  own :
      {b : Text}
      → b ≡ provider_of registry entry
      → member b available ≡ true
      → Serves registry available entry b
  shared :
      {b : Text}
      → b ≡ shared_endpoint
      → member (provider_of registry entry) available ≡ false
      → is_openai_format registry (provider_of registry entry) ≡ true
      → member b available ≡ true
      → Serves registry available entry b

-- The steps that a list of entries asks for.
pub data Plans (registry : ProviderRegistry) (available : List Text)
    : List ComboEntry → List (Text × Text) → Type 0 where
  done : Plans registry available [] []
  use_entry :
      {entry : ComboEntry} {entries : List ComboEntry} {b : Text} {steps : List (Text × Text)}
      → Serves registry available entry b
      → Plans registry available entries steps
      → Plans registry available (entry ∷ entries) ((b, entry.model) ∷ steps)
  skip_entry :
      {entry : ComboEntry} {entries : List ComboEntry} {steps : List (Text × Text)}
      → ((b : Text) → ¬ Serves registry available entry b)
      → Plans registry available entries steps
      → Plans registry available (entry ∷ entries) steps

module _ (registry : ProviderRegistry) (available : List Text) where
  dispatch_cases :
      (entry : ComboEntry) (b : Text)
      → dispatch_backend entry registry available ≡ some b
      → ((b ≡ provider_of registry entry) × (member b available ≡ true))
        ⊎ ((b ≡ shared_endpoint)
            × (member (provider_of registry entry) available ≡ false)
            × (is_openai_format registry (provider_of registry entry) ≡ true)
            × (member b available ≡ true))
  unfolding dispatch_backend
  dispatch_cases entry b h = ground arith

  dispatch-Serves :
      (entry : ComboEntry) (b : Text)
      → dispatch_backend entry registry available ≡ some b
      → Serves registry available entry b
  dispatch-Serves entry b h = elim (dispatch_cases entry b h) [
    | inl (e, m) ↦ own e m
    | inr (e, n, o, m) ↦ shared e n o m
  ]

  Serves-dispatch :
      (entry : ComboEntry) {b : Text}
      → Serves registry available entry b
      → dispatch_backend entry registry available ≡ some b
  unfolding dispatch_backend
  Serves-dispatch entry (own e m) = ground (arith, e, m)
  Serves-dispatch entry (shared e n o m) = ground (arith, e, n, o, m)

  none-Serves :
      (entry : ComboEntry)
      → dispatch_backend entry registry available ≡ none
      → (b : Text) → ¬ Serves registry available entry b
  none-Serves entry h b v = cc (Serves-dispatch entry v, h)

  plan_entries-Plans :
      (entries : List ComboEntry)
      → Plans registry available entries (plan_entries registry available entries)
  unfolding plan_entries
  plan_entries-Plans [] = done
  plan_entries-Plans (entry ∷ entries) =
      elim (Option-cases (dispatch_backend entry registry available)) [
        | inl e ↦
            rw (e, plan_entries) (skip_entry (none-Serves entry e) (plan_entries-Plans entries))
        | inr (b, e) ↦
            rw (e, plan_entries)
              (use_entry (dispatch-Serves entry b e) (plan_entries-Plans entries))
      ]

  -- The plan of a combo holds, in the order of the combo, one step for each entry that a running
  -- backend serves (its provider's own backend first, the shared endpoint else, and no other in
  -- between), with the entry's model, and leaves out exactly the entries that none serves.
  pub plan_steps-Plans :
      (combo : ComboDef)
      → Plans registry available combo.entries (plan_steps combo registry available)
  unfolding plan_steps
  plan_steps-Plans combo = plan_entries-Plans combo.entries
