-- ===== src/Combos/Parse.antt =====
-- Combo rows: what is written as a row is read back, and what is read is well formed.
use heterion_router.Prelude.{
  ◌<◌, ◌≡◌, ◌≢◌, refl, sym, ◌∙◌, ap, inl, inr, Option, none, some, List, [], ◌∷◌, ◌++◌, Text, codes,
  text_eq, arith, Option-cases, map,
}
use mathlib.Core.Path.{ap₂, subst}
use heterion_router.Prelude.Whitespace.{trim}
use heterion_router.Json.{
  Value, Items, bool, number, string, array, object, nil, cons, end, field, nat, items, get_field,
  and_then, get, as_array,
}
use heterion_router.Combos.{
  ComboEntry, ComboDef, ComboConfig, RichEntry, split_once, split_model_ref, parse_item,
  parse_items, parse_combo_rich, parse_combo_config, parse_combo, cons_some, entry_only,
  with_strategy,
}

abbrev NoSlash : Text → Type 0
NoSlash [] = Unit {0}
NoSlash (c ∷ s) = (c ≢ b'/') × NoSlash s

split_once-append : (p m : Text) → NoSlash p → split_once b'/' (p ++ b'/' ∷ m) ≡ some (p, m)
unfolding split_once
split_once-append [] m h = refl
split_once-append (c ∷ p) m h = ground (arith, split_once-append p m h.1)

split_model_ref-append : (p m : Text) → NoSlash p → split_model_ref (p ++ b'/' ∷ m) ≡ (p, m)
unfolding split_model_ref
split_model_ref-append p m h = rw (split_once-append p m h)

-- An entry that a row can hold: a provider without a slash and without white space at its ends.
pub record IsEntry (e : ComboEntry) : Type 0 where
  pub provider_some : e.provider ≢ []
  pub provider_slash : NoSlash e.provider
  pub provider_trimmed : trim e.provider ≡ e.provider
  pub model_some : e.model ≢ []

abbrev pub AllEntries : List ComboEntry → Type 0
AllEntries [] = Unit {0}
AllEntries (e ∷ es) = IsEntry e × AllEntries es

-- The row that the dashboard stores for a combo.
abbrev pub item_of : ComboEntry → Value
item_of e = object (
    field (codes "kind") (string (codes "model")) (
      field (codes "model") (string (e.provider ++ b'/' ∷ e.model))
        (field (codes "providerId") (string e.provider) end)))

abbrev pub items_of : List ComboEntry → Items
items_of [] = nil
items_of (e ∷ es) = cons (item_of e) (items_of es)

abbrev pub config_row : ComboConfig → Value
config_row c = object (
    field (codes "maxRetries") (number (nat c.max_retries)) (
      field (codes "retryDelayMs") (number (nat c.retry_delay_ms)) (
        field (codes "failoverBeforeRetry") (bool c.failover_before_retry) (
          field (codes "maxSetRetries") (number (nat c.max_set_retries))
            (field (codes "setRetryDelayMs") (number (nat c.set_retry_delay_ms)) end)))))

abbrev pub row_of : ComboDef → Value
row_of c = object (
    field (codes "strategy") (string c.strategy) (
      field (codes "models") (array (items_of c.entries))
        (field (codes "config") (config_row c.config) end)))

abbrev rich : ComboEntry → RichEntry
rich e = record { entry = e; id = []; weight = nat 0 }

parse_item-item_of : (e : ComboEntry) → IsEntry e → parse_item (item_of e) ≡ some (rich e)
unfolding parse_item get_field text_eq
parse_item-item_of e h = ground (arith, split_model_ref-append e.provider e.model h.provider_slash)

parse_items-items_of :
    (es : List ComboEntry) → AllEntries es → parse_items (items (items_of es)) ≡ map rich es
unfolding parse_items items
parse_items-items_of [] h = refl
parse_items-items_of (e ∷ es) h =
    ap₂ cons_some (parse_item-item_of e h.0) (parse_items-items_of es h.1)

rich-entries : (es : List ComboEntry) → map entry_only (map rich es) ≡ es
rich-entries [] = refl
rich-entries (e ∷ es) = ap (◌∷◌ e) (rich-entries es)

parse_rich-row_of :
    (c : ComboDef) (es : List ComboEntry)
    → es ≢ []
    → with_strategy (row_of c) (map rich es) ≡ some (c.strategy, map rich es)
unfolding get_field text_eq
parse_rich-row_of c [] n = absurd (n refl)
parse_rich-row_of c (e ∷ es) n = refl

parse_combo_rich-row_of :
    (c : ComboDef)
    → c.entries ≢ []
    → AllEntries c.entries
    → parse_combo_rich (row_of c) ≡ some (c.strategy, map rich c.entries)
unfolding parse_combo_rich get_field text_eq
parse_combo_rich-row_of c n h =
    ap (with_strategy (row_of c)) (parse_items-items_of c.entries h)
    ∙ parse_rich-row_of c c.entries n

parse_combo_config-row_of :
    (c : ComboDef)
    → c.config.max_retries < 4294967296
    → c.config.max_set_retries < 4294967296
    → parse_combo_config (row_of c) ≡ c.config
unfolding parse_combo_config get_field text_eq
parse_combo_config-row_of c r s = ground arith

-- A combo whose entries are well formed, and whose two retry counts are 32-bit numbers, is read
-- back from its row as it was written.
pub parse_combo-row_of :
    (c : ComboDef)
    → c.entries ≢ []
    → AllEntries c.entries
    → c.config.max_retries < 4294967296
    → c.config.max_set_retries < 4294967296
    → parse_combo c.name (row_of c) ≡ some c
unfolding parse_combo
parse_combo-row_of c n h r s =
    rw (parse_combo_rich-row_of c n h, parse_combo)
      (ground (arith, parse_combo_config-row_of c r s, rich-entries c.entries))

abbrev pub AllServable : List ComboEntry → Type 0
AllServable [] = Unit {0}
AllServable (e ∷ es) = (e.provider ≢ []) × (e.model ≢ []) × AllServable es

parse_item_valid :
    (item : Value) (r : RichEntry)
    → parse_item item ≡ some r
    → (r.entry.provider ≢ []) × (r.entry.model ≢ [])
unfolding parse_item
parse_item_valid item r h = ground arith

parse_items_valid : (vs : List Value) → AllServable (map entry_only (parse_items vs))
unfolding parse_items
parse_items_valid [] = tt
parse_items_valid (v ∷ vs) = elim (Option-cases (parse_item v)) [
  | inl e ↦ rw (e, parse_items) (parse_items_valid vs)
  | inr (r, e) ↦
      let w = parse_item_valid v r e in rw (e, parse_items) (w.0, w.1, parse_items_valid vs)
]

with_strategy_inv :
    (row : Value) (es : List RichEntry) (s : Text) (r : List RichEntry)
    → with_strategy row es ≡ some (s, r)
    → (es ≡ r) × (r ≢ [])
with_strategy_inv row [] s r h = cc
with_strategy_inv row (e ∷ es) s r h = (ground arith, ground arith)

servable_rich :
    (row : Value) (models : Option (List Value)) (s : Text) (r : List RichEntry)
    → and_then models (λ vs. with_strategy row (parse_items vs)) ≡ some (s, r)
    → (r ≢ []) × AllServable (map entry_only r)
servable_rich row none s r h = cc
servable_rich row (some vs) s r h =
    let (e, n) = with_strategy_inv row (parse_items vs) s r h in
    (n, subst (λ x. AllServable (map entry_only x)) e (parse_items_valid vs))

rich_valid :
    (row : Value) (s : Text) (r : List RichEntry)
    → parse_combo_rich row ≡ some (s, r)
    → (r ≢ []) × AllServable (map entry_only r)
unfolding parse_combo_rich
rich_valid row s r h = servable_rich row (and_then (get (codes "models") row) as_array) s r h

map-ne-nil : (r : List RichEntry) → r ≢ [] → map entry_only r ≢ []
map-ne-nil [] n e = n refl
map-ne-nil (x ∷ r) n e = cc

parse_combo_from :
    (name : Text) (row : Value) (c : ComboDef) (o : Option (Text × List RichEntry))
    → parse_combo_rich row ≡ o
    → parse_combo name row ≡ some c
    → (s : Text) × (r : List RichEntry) × (o ≡ some (s, r))
      × (map entry_only r ≡ c.entries)
      × (c.name ≡ name)
unfolding parse_combo
parse_combo_from name row c none e h = cc (sym (rw e at h))
parse_combo_from name row c (some (s, r)) e h = (s, r, refl, ground arith, ground arith)

-- Whatever JSON a row holds, a combo that is read from it has an entry, and each of its entries has
-- a provider and a model.
pub parse_combo_valid :
    (name : Text) (row : Value) (c : ComboDef)
    → parse_combo name row ≡ some c
    → (c.entries ≢ []) × AllServable c.entries × (c.name ≡ name)
parse_combo_valid name row c h =
    let (s, r, e, m, k) = parse_combo_from name row c (parse_combo_rich row) refl h in
    let (n, v) = rich_valid row s r e in
    (subst (λ es. es ≢ []) m (map-ne-nil r n), subst AllServable m v, k)
