-- ===== src/Upstream/Recovered.antt =====
-- Re-spelling an error with the status that its payload names.
use heterion_router.Prelude.{
  ℕ, ◌+◌, ◌*◌, ◌≤◌, ◌≡◌, refl, ◌∙◌, ap, Option, none, some, List, [], ◌∷◌, ◌++◌, Text, codes, take,
  arith, strip_prefix, ◌/◌, ◌%◌,
}
use heterion_router.Json.{Value, Number, null, bool, number, string, array, object, and_then}
use heterion_router.Upstream.{
  or_later, respell, upstream_detail_limit, from_bracket, upstream_status_or_recovered, show_fuel,
  GatewayError, upstream, unknown_model, invalid_request, upstream_status,
  upstream_status_or_recovered, recovered_upstream_status, status_from_error_payload,
  with_recovered_status, find_status, status_field, named_status, pointer, status_pointers,
  show_u16, take_digits, digits_value, parse_u16,
}

-- A status of three digits that HTTP knows.
abbrev IsStatus : Option ℕ → Type 0
IsStatus none = Unit {0}
IsStatus (some n) = (100 ≤ n) × (n ≤ 599)

named_status-IsStatus : (s : Text) → IsStatus (named_status s)
unfolding named_status
named_status-IsStatus s = ground arith

status_field-IsStatus : (v : Value) → IsStatus (status_field v)
unfolding status_field
status_field-IsStatus (number (Number.nat n)) = ground arith
status_field-IsStatus (number (Number.neg n)) = tt
status_field-IsStatus (number (Number.float s)) = tt
status_field-IsStatus (string s) = named_status-IsStatus s
status_field-IsStatus null = tt
status_field-IsStatus (bool b) = tt
status_field-IsStatus (array vs) = tt
status_field-IsStatus (object fs) = tt

or_later-IsStatus : (a b : Option ℕ) → IsStatus a → IsStatus b → IsStatus (or_later a b)
or_later-IsStatus none b ha hb = hb
or_later-IsStatus (some n) b ha hb = ha

and_then-IsStatus : (v : Option Value) → IsStatus (and_then v status_field)
and_then-IsStatus none = tt
and_then-IsStatus (some v) = status_field-IsStatus v

find_status-IsStatus : (ps : List (List Text)) (v : Value) → IsStatus (find_status ps v)
unfolding find_status
find_status-IsStatus [] v = tt
find_status-IsStatus (p ∷ ps) v =
    or_later-IsStatus (and_then (pointer p v) status_field) (find_status ps v)
      (and_then-IsStatus (pointer p v)) (find_status-IsStatus ps v)

show_u16_digits :
    (n : ℕ)
    → 100 ≤ n
    → n ≤ 599
    → show_u16 n ≡ (48 + n / 100) ∷ (48 + n / 10 % 10) ∷ (48 + n % 10) ∷ []
unfolding show_u16 show_fuel
show_u16_digits n h k = ground arith

digits_line :
    (a b c : ℕ) (rest : Text)
    → a ≤ 9
    → b ≤ 9
    → c ≤ 9
    → take_digits ((48 + a) ∷ (48 + b) ∷ (48 + c) ∷ b':' ∷ rest)
      ≡ (48 + a) ∷ (48 + b) ∷ (48 + c) ∷ []
unfolding take_digits
digits_line a b c rest ha hb hc = ground arith

parse_line :
    (a b c : ℕ)
    → a ≤ 9
    → b ≤ 9
    → c ≤ 9
    → parse_u16 ((48 + a) ∷ (48 + b) ∷ (48 + c) ∷ []) ≡ some (a * 100 + b * 10 + c)
unfolding parse_u16 digits_value
parse_line a b c ha hb hc = ground arith

upstream_status-digits :
    (a b c : ℕ) (rest : Text)
    → a ≤ 9
    → b ≤ 9
    → c ≤ 9
    → upstream_status (codes "upstream status " ++ ((48 + a) ∷ (48 + b) ∷ (48 + c) ∷ b':' ∷ rest))
      ≡ some (a * 100 + b * 10 + c)
unfolding upstream_status strip_prefix
upstream_status-digits a b c rest ha hb hc =
    ap parse_u16 (digits_line a b c rest ha hb hc) ∙ parse_line a b c ha hb hc

-- The gateway reads back the status of every message that it re-spells itself.
pub upstream_status-show :
    (n : ℕ) (rest : Text)
    → 100 ≤ n
    → n ≤ 599
    → upstream_status (codes "upstream status " ++ (show_u16 n ++ (codes ": " ++ rest))) ≡ some n
upstream_status-show n rest h k = rw (show_u16_digits n h k) (
    upstream_status-digits (n / 100) (n / 10 % 10) (n % 10) (b' ' ∷ rest) (omega arith)
      (omega arith) (omega arith)
    ∙ ap some (omega arith))

-- The status that an error's message names in the standard form.
unfoldable pub named : GatewayError → Option ℕ
named (upstream m) = upstream_status m
named (unknown_model m) = none
named (invalid_request m) = none

module _ (from_str : Text → Option Value) where
  bracket-IsStatus :
      (o : Option Value) → IsStatus (and_then o (λ payload. find_status status_pointers payload))
  bracket-IsStatus none = tt
  bracket-IsStatus (some v) = find_status-IsStatus status_pointers v

  pub recovered-IsStatus : (m : Text) → IsStatus (status_from_error_payload from_str m)
  unfolding status_from_error_payload
  recovered-IsStatus m = bracket-IsStatus (and_then (from_bracket m) from_str)

  respell_status :
      (message : Text) (s r : Option ℕ)
      → upstream_status message ≡ s
      → IsStatus r
      → named (respell from_str message s r) ≡ or_later s r
  unfolding named
  respell_status message (some n) r e h = e
  respell_status message none none e h = e
  respell_status message none (some n) e (h, k) =
      upstream_status-show n (take upstream_detail_limit message) h k

  -- Re-spelling an error keeps the status that is recovered from it, and afterwards the message
  -- itself names that status: whenever one can be recovered, it is in the standard form.
  pub with_recovered_status-status :
      (e : GatewayError)
      → named (with_recovered_status from_str e) ≡ recovered_upstream_status from_str e
  unfolding named with_recovered_status recovered_upstream_status upstream_status_or_recovered
  with_recovered_status-status (upstream m) =
      respell_status m (upstream_status m) (status_from_error_payload from_str m) refl
        (recovered-IsStatus m)
  with_recovered_status-status (unknown_model m) = refl
  with_recovered_status-status (invalid_request m) = refl
