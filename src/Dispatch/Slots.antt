-- ===== src/Dispatch/Slots.antt =====
-- The ring of attributions: bounded, one entry for each token, and what it answers.
use heterion_router.Prelude.{
  ℕ, suc, ◌+◌, ◌≤◌, ◌<◌, ◌≡◌, refl, ◌∙◌, ap, Bool, true, false, List, [], ◌∷◌, ◌++◌, Text, text_eq,
  text_eq_refl, text_eq_iff, arith, length, length-append, if◌then◌else◌, leb,
}
use heterion_router.Dispatch.Ring.{
  Attribution, attribution_slots, remove_first, without, remember, attribution,
}

abbrev Ring : Type 0
Ring = List (Text × Attribution)

-- How many entries a token has.
unfoldable pub entries_of : Text → Ring → ℕ
entries_of token [] = 0
entries_of token ((key, a) ∷ es) = (if text_eq key token then 1 else 0) + entries_of token es

-- At most the number of slots, and each token once.
pub record IsRing (entries : Ring) : Type 0 where
  pub bounded : length entries ≤ attribution_slots
  pub once : (token : Text) → entries_of token entries ≤ 1

length-without : (token : Text) (es : Ring) → length (without token es) ≤ length es
unfolding without
length-without token [] = omega arith
length-without token ((key, a) ∷ es) = ground (arith, length-without token es)

entries_of-without :
    (token other : Text) (es : Ring)
    → entries_of other (without token es) ≡ (if text_eq token other then 0 else entries_of other es)
unfolding without entries_of
entries_of-without token other [] = ground arith
entries_of-without token other ((key, a) ∷ es) = ground (
  arith,
  text_eq_iff key token,
  text_eq_iff token other,
  text_eq_iff key other,
  entries_of-without token other es,
)

entries_of-append :
    (token : Text) (es fs : Ring)
    → entries_of token (es ++ fs) ≡ entries_of token es + entries_of token fs
unfolding entries_of
entries_of-append token [] fs = omega arith
entries_of-append token ((key, a) ∷ es) fs = omega (arith, entries_of-append token es fs)

entries_of-remove_first :
    (token : Text) (es : Ring) → entries_of token (remove_first es) ≤ entries_of token es
unfolding entries_of
entries_of-remove_first token [] = omega arith
entries_of-remove_first token ((key, a) ∷ es) = omega arith

abbrev room : Ring → Ring
room es = if leb attribution_slots (length es) then remove_first es else es

length-room :
    (es : Ring) → length es ≤ attribution_slots → suc (length (room es)) ≤ attribution_slots
length-room [] h = omega arith
length-room ((key, a) ∷ es) h = ground arith

entries_of-room : (token : Text) (es : Ring) → entries_of token (room es) ≤ entries_of token es
entries_of-room token es = ground (arith, entries_of-remove_first token es)

room_below : (es : Ring) → length es < attribution_slots → room es ≡ es
room_below es h = ground arith

-- Remembering who served a request keeps the ring: 256 entries at most, and one for each token.
pub remember-IsRing :
    (token : Text) (a : Attribution) (entries : Ring)
    → IsRing entries
    → IsRing (remember token a entries)
unfolding remember entries_of
remember-IsRing token a entries ring = record {
  bounded = omega (
    arith,
    length-append (without token (room entries)) ((token, a) ∷ []),
    length-without token (room entries),
    length-room entries ring.bounded,
  );
  once = λ other. ground (
    arith,
    entries_of-append other (without token (room entries)) ((token, a) ∷ []),
    entries_of-without token other (room entries),
    entries_of-room other entries,
    ring.once other,
  );
}

attribution-append_self :
    (token : Text) (a : Attribution) (es : Ring)
    → attribution (without token es ++ (token, a) ∷ []) token ≡ a
unfolding attribution without
attribution-append_self token a [] = ground (arith, text_eq_refl token)
attribution-append_self token a ((key, b) ∷ es) =
    ground (arith, text_eq_refl token, attribution-append_self token a es)

attribution-append_other :
    (token other : Text) (a : Attribution) (es : Ring)
    → text_eq token other ≡ false
    → attribution (without token es ++ (token, a) ∷ []) other ≡ attribution es other
unfolding attribution without
attribution-append_other token other a [] h = ground arith
attribution-append_other token other a ((key, b) ∷ es) h = ground (
  arith,
  text_eq_iff key token,
  text_eq_iff key other,
  text_eq_iff token other,
  attribution-append_other token other a es h,
)

pub attribution-remember_self :
    (token : Text) (a : Attribution) (entries : Ring)
    → attribution (remember token a entries) token ≡ a
unfolding remember
attribution-remember_self token a entries = attribution-append_self token a (room entries)

lookup_choice :
    (token other : Text) (a : Attribution) (es : Ring) (b : Bool)
    → text_eq token other ≡ b
    → attribution (without token es ++ (token, a) ∷ []) other
      ≡ (if b then a else attribution es other)
lookup_choice token other a es true e =
    rw ((text_eq_iff token other).0 e) (attribution-append_self other a es)
lookup_choice token other a es false e = attribution-append_other token other a es e

-- Below the bound, the ring answers what is remembered of a token, and for all other tokens what it
-- answered before.
pub attribution-remember :
    (token other : Text) (a : Attribution) (entries : Ring)
    → length entries < attribution_slots
    → attribution (remember token a entries) other
      ≡ (if text_eq token other then a else attribution entries other)
unfolding remember
attribution-remember token other a entries h =
    lookup_choice token other a (room entries) (text_eq token other) refl
    ∙ ap (λ es. if text_eq token other then a else attribution es other) (room_below entries h)
