-- ===== src/Dispatch/Running.antt =====
-- How a requested model is resolved.
use heterion_router.Prelude.{
  ◌≡◌, ◌≢◌, ◌⊎◌, inl, inr, refl, sym, Bool, true, false, Option, none, some, List, [], ◌∷◌, Text,
  codes, is_empty, lookup, arith, if◌then◌else◌,
}
use heterion_router.Registry.{ProviderRegistry}
use heterion_router.Combos.{
  ComboDef, ComboEntry, default_config, split_once, member, plan_steps, plan_entries,
  dispatch_backend,
}
use heterion_router.Upstream.{upstream}
use heterion_router.Dispatch.Resolve.{
  Plan, Result, ok, err, RoutingBackend, prefix_only, canonical, direct_step, combo_plan,
  from_combo, from_store, or_store, resolve,
}

-- Each step names a backend that runs.
pub data AllRun (backends : List Text) : List (Text × Text) → Type 0 where
  done : AllRun backends []
  more :
      {name target : Text} {steps : List (Text × Text)}
      → member name backends ≡ true
      → AllRun backends steps
      → AllRun backends ((name, target) ∷ steps)

dispatch_running :
    (registry : ProviderRegistry) (available : List Text) (entry : ComboEntry) (b : Text)
    → dispatch_backend entry registry available ≡ some b
    → member b available ≡ true
unfolding dispatch_backend
dispatch_running registry available entry b h = ground arith

step_running :
    (registry : ProviderRegistry) (available : List Text) (entry : ComboEntry)
    (rest : List ComboEntry) (o : Option Text)
    → dispatch_backend entry registry available ≡ o
    → AllRun available (plan_entries registry available rest)
    → AllRun available (plan_entries registry available (entry ∷ rest))
unfolding plan_entries
step_running registry available entry rest none e h = rw e h
step_running registry available entry rest (some b) e h =
    rw e (more (dispatch_running registry available entry b e) h)

plan_entries-AllRun :
    (registry : ProviderRegistry) (available : List Text) (entries : List ComboEntry)
    → AllRun available (plan_entries registry available entries)
unfolding plan_entries
plan_entries-AllRun registry available [] = done
plan_entries-AllRun registry available (entry ∷ rest) =
    step_running registry available entry rest (dispatch_backend entry registry available) refl
      (plan_entries-AllRun registry available rest)

module _ (to_lowercase : Text → Text) (self : RoutingBackend) (model : Text) where
  -- The model names no backend itself: it has no slash, nothing behind its first slash, or in front
  -- of it a provider whose backend does not run.
  pub data IsIndirect : Type 0 where
    no_slash : split_once b'/' model ≡ none → IsIndirect
    no_model : {prefix : Text} → split_once b'/' model ≡ some (prefix, []) → IsIndirect
    not_running :
        {prefix rest : Text}
        → split_once b'/' model ≡ some (prefix, rest)
        → member (canonical to_lowercase self prefix) self.backends ≡ false
        → IsIndirect

  -- The combo that the store holds under the model's name.
  pub record Found (combo : ComboDef) (registry : ProviderRegistry) : Type 0 where
    pub combos : List (Text × ComboDef)
    pub store : self.db ≡ some (some combos)
    pub known : self.registry ≡ some registry
    pub named : lookup model combos ≡ some combo

  -- The ways to resolve a model, and when each is taken.
  pub data Resolved : Result Plan → Type 0 where
    direct :
        {prefix rest : Text}
        → split_once b'/' model ≡ some (prefix, rest)
        → rest ≢ []
        → member (canonical to_lowercase self prefix) self.backends ≡ true
        → Resolved (
            ok (record {
              config = default_config;
              steps = (canonical to_lowercase self prefix, rest) ∷ [];
              combo_name = none;
            }))
    through_combo :
        {combo : ComboDef} {registry : ProviderRegistry} {steps : List (Text × Text)}
        → IsIndirect
        → Found combo registry
        → steps ≡ plan_steps combo registry self.backends
        → steps ≢ []
        → AllRun self.backends steps
        → Resolved (ok (record { config = combo.config; steps = steps; combo_name = some model }))
    unservable_combo :
        {combo : ComboDef} {registry : ProviderRegistry}
        → IsIndirect
        → Found combo registry
        → plan_steps combo registry self.backends ≡ []
        → Resolved (ok (prefix_only to_lowercase self model combo.config))
    no_store :
        IsIndirect
        → (self.db ≡ none) ⊎ (self.registry ≡ none)
        → Resolved (ok (prefix_only to_lowercase self model default_config))
    no_combo :
        {combos : List (Text × ComboDef)} {registry : ProviderRegistry}
        → IsIndirect
        → self.db ≡ some (some combos)
        → self.registry ≡ some registry
        → lookup model combos ≡ none
        → Resolved (ok (prefix_only to_lowercase self model default_config))
    unreadable :
        {registry : ProviderRegistry}
        → IsIndirect
        → self.db ≡ some none
        → self.registry ≡ some registry
        → Resolved (err (upstream (codes "combo store unavailable")))

  plan_steps-AllRun :
      (combo : ComboDef) (registry : ProviderRegistry)
      → AllRun self.backends (plan_steps combo registry self.backends)
  unfolding plan_steps
  plan_steps-AllRun combo registry = plan_entries-AllRun registry self.backends combo.entries

  combo_plan-Resolved :
      (combo : ComboDef) (registry : ProviderRegistry) (steps : List (Text × Text))
      → IsIndirect
      → Found combo registry
      → steps ≡ plan_steps combo registry self.backends
      → AllRun self.backends steps
      → Resolved (ok (combo_plan to_lowercase self model combo.config steps))
  combo_plan-Resolved combo registry [] i f e r = unservable_combo i f (sym e)
  combo_plan-Resolved combo registry (step ∷ steps) i f e r = through_combo i f e (λ q. cc q) r

  from_combo-Resolved :
      (combos : List (Text × ComboDef)) (registry : ProviderRegistry) (o : Option ComboDef)
      → IsIndirect
      → self.db ≡ some (some combos)
      → self.registry ≡ some registry
      → lookup model combos ≡ o
      → Resolved (ok (from_combo to_lowercase self model registry o))
  from_combo-Resolved combos registry none i d k e = no_combo i d k e
  from_combo-Resolved combos registry (some combo) i d k e =
      combo_plan-Resolved combo registry (plan_steps combo registry self.backends) i
        (record { combos = combos; store = d; known = k; named = e }) refl
        (plan_steps-AllRun combo registry)

  from_store-Resolved :
      (store : Option (Option (List (Text × ComboDef)))) (registry : Option ProviderRegistry)
      → IsIndirect
      → self.db ≡ store
      → self.registry ≡ registry
      → Resolved (from_store to_lowercase self model store registry)
  from_store-Resolved none registry i d k = no_store i (inl d)
  from_store-Resolved (some store) none i d k = no_store i (inr k)
  from_store-Resolved (some none) (some registry) i d k = unreadable i d k
  from_store-Resolved (some (some combos)) (some registry) i d k =
      from_combo-Resolved combos registry (lookup model combos) i d k refl

  direct_choice :
      (prefix rest : Text) (running : Bool)
      → split_once b'/' model ≡ some (prefix, rest)
      → member (canonical to_lowercase self prefix) self.backends ≡ running
      → Resolved (
          or_store to_lowercase self model (
            if is_empty rest
            then none
            else if running
            then some (canonical to_lowercase self prefix, rest)
            else none))
  direct_choice prefix [] running e m =
      from_store-Resolved self.db self.registry (no_model e) refl refl
  direct_choice prefix (c ∷ rest) false e m =
      from_store-Resolved self.db self.registry (not_running e m) refl refl
  direct_choice prefix (c ∷ rest) true e m = direct e (λ q. cc q) m

  or_store-Resolved :
      (o : Option (Text × Text))
      → split_once b'/' model ≡ o
      → Resolved (or_store to_lowercase self model (direct_step to_lowercase self o))
  or_store-Resolved none e = from_store-Resolved self.db self.registry (no_slash e) refl refl
  or_store-Resolved (some (prefix, rest)) e =
      direct_choice prefix rest (member (canonical to_lowercase self prefix) self.backends) e refl

  -- `provider/model` goes to that provider's backend alone, when it runs and the model's part is not
  -- empty. Any other model goes to the combo of its name, by its servable steps, each on a backend
  -- that runs; to the prefix rules with the combo's settings when none of its steps can be
  -- served; and to the prefix rules alone when there is no store or no registry, or when the store
  -- was read and has no such combo. With a registry, a store that cannot be read is an error.
  pub resolve-Resolved : Resolved (resolve to_lowercase self model)
  unfolding resolve
  resolve-Resolved = or_store-Resolved (split_once b'/' model) refl
