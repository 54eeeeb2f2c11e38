-- ===== src/Registry/Canonical.antt =====
-- Which entry an id or an alias resolves to.
use heterion_router.Prelude.{
  ℕ, zero, suc, ◌+◌, ◌≡◌, ◌≢◌, refl, sym, ◌∙◌, ap, Option, none, some, List, [], ◌∷◌, Text, text_eq,
  text_eq_iff, text_eq_refl, get_elem?, lookup, insert, lookup-insert, arith,
}
use heterion_router.Registry.{
  ProviderEntry, WireFormat, index_ids, add_alias, index_aliases, from_entries, get, canonical_id,
  parse_wire_format, as_str, open_ai, open_ai_responses, claude, gemini, antigravity,
}

-- No two entries have one id.
abbrev pub NoneHasId : Text → List ProviderEntry → Type 0
NoneHasId id [] = Unit {0}
NoneHasId id (e ∷ es) = (e.id ≢ id) × NoneHasId id es

abbrev pub DistinctIds : List ProviderEntry → Type 0
DistinctIds [] = Unit {0}
DistinctIds (e ∷ es) = NoneHasId e.id es × DistinctIds es

index_ids_other :
    (n : ℕ) (es : List ProviderEntry) (m : List (Text × ℕ)) (k : Text)
    → NoneHasId k es
    → lookup k (index_ids n es m) ≡ lookup k m
unfolding index_ids
index_ids_other n [] m k h = refl
index_ids_other n (e ∷ es) m k h =
    index_ids_other (suc n) es (insert e.id n m) k h.1
    ∙ ground (arith, lookup-insert e.id k n m, text_eq_iff e.id k)

-- The position of an entry's id is that of the entry.
index_ids_at :
    (n i : ℕ) (es : List ProviderEntry) (m : List (Text × ℕ)) (e : ProviderEntry)
    → DistinctIds es
    → get_elem? es i ≡ some e
    → lookup e.id (index_ids n es m) ≡ some (n + i)
unfolding index_ids
index_ids_at n i [] m e d h = cc
index_ids_at n zero (e' ∷ es) m e d h =
    let same : e' ≡ e = cc in
    ap (λ x. lookup x.id (index_ids (suc n) es (insert e'.id n m))) (sym same)
    ∙ index_ids_other (suc n) es (insert e'.id n m) e'.id d.0
    ∙ ground (arith, lookup-insert e'.id e'.id n m, text_eq_refl e'.id)
index_ids_at n (suc i) (e' ∷ es) m e d h =
    index_ids_at (suc n) i es (insert e'.id n m) e d.1 h ∙ ap some (omega arith)

add_alias_kept :
    (n : ℕ) (m : List (Text × ℕ)) (k : Text) (i : ℕ) (alias : Option Text)
    → lookup k m ≡ some i
    → lookup k (add_alias n m alias) ≡ some i
add_alias_kept n m k i none h = h
add_alias_kept n m k i (some a) h = ground (arith, lookup-insert a k n m, text_eq_iff a k)

-- An alias never moves a key that is there.
index_aliases_kept :
    (n : ℕ) (es : List ProviderEntry) (m : List (Text × ℕ)) (k : Text) (i : ℕ)
    → lookup k m ≡ some i
    → lookup k (index_aliases n es m) ≡ some i
unfolding index_aliases
index_aliases_kept n [] m k i h = h
index_aliases_kept n (e ∷ es) m k i h =
    index_aliases_kept (suc n) es (add_alias n m e.alias) k i (add_alias_kept n m k i e.alias h)

-- Each entry's own id resolves to this entry, whatever aliases the entries have, if no two
-- entries share an id.
pub get-from_entries :
    (es : List ProviderEntry) (i : ℕ) (e : ProviderEntry)
    → DistinctIds es
    → get_elem? es i ≡ some e
    → (get (from_entries es) e.id ≡ some e) × (canonical_id (from_entries es) e.id ≡ some e.id)
unfolding get canonical_id from_entries
get-from_entries es i e d h =
    let at =
      index_aliases_kept 0 es (index_ids 0 es []) e.id i
        (index_ids_at 0 i es [] e d h ∙ ap some (omega arith)) in
    (rw at h, rw at (rw h))

-- Reading a format back from its name gives the format.
pub parse_wire_format-as_str : (f : WireFormat) → parse_wire_format (as_str f) ≡ some f
unfolding parse_wire_format as_str text_eq
parse_wire_format-as_str open_ai = refl
parse_wire_format-as_str open_ai_responses = refl
parse_wire_format-as_str claude = refl
parse_wire_format-as_str gemini = refl
parse_wire_format-as_str antigravity = refl
