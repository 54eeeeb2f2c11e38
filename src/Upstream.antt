-- ===== src/Upstream.antt =====
-- Gateway errors and the status that an upstream error carries: `GatewayError` in
-- crates/heterion-router-core/src/error.rs, lines 1143-1268 of crates/heterion-router-gateway/src/lib.rs,
-- and the two classifications of crates/heterion-router-gateway/src/routing.rs, lines 57-75 and
-- 276-288. `serde_json::from_str` is the parameter `from_str`.
pub mod Status
pub mod Recovered
mod Tests
use heterion_router.Prelude.{
  ℕ, zero, suc, ◌+◌, ◌-◌, ◌*◌, ◌/◌, ◌%◌, Bool, true, false, ◌&&◌, ◌||◌, Option, none, some, List,
  [], ◌∷◌, ◌++◌, Text, codes, text_eq, take, strip_prefix, ltb, leb, ◌==◌, if◌then◌else◌, is_empty,
}
use heterion_router.Json.{
  Value, Number, Items, Fields, null, bool, number, string, array, object, get, and_then,
}

pub data GatewayError : Type 0 where
  unknown_model upstream invalid_request : Text → GatewayError

abbrev is_digit : ℕ → Bool
is_digit c = leb b'0' c && leb c b'9'

-- `take_while(char::is_ascii_digit)`.
unfoldable pub take_digits : Text → Text
take_digits [] = []
take_digits (c ∷ s) = let rest = take_digits s in if is_digit c then c ∷ rest else []

-- The number that digits spell, behind the value of those before.
unfoldable pub digits_value : ℕ → Text → ℕ
digits_value n [] = n
digits_value n (c ∷ s) = digits_value (n * 10 + (c - b'0')) s

-- `str::parse::<u16>` of a text of digits.
unfoldable pub parse_u16 : Text → Option ℕ
parse_u16 s =
    if is_empty s
    then none
    else if ltb (digits_value 0 s) 65536
    then some (digits_value 0 s)
    else none

-- `upstream_status`.
unfoldable pub upstream_status : Text → Option ℕ
upstream_status message =
    and_then (strip_prefix (codes "upstream status ") message)
      (λ rest. parse_u16 (take_digits rest))

unfoldable pub is_one_of : Text → List Text → Bool
is_one_of s [] = false
is_one_of s (t ∷ ts) = text_eq s t || is_one_of s ts

-- `named_status`.
unfoldable pub named_status : Text → Option ℕ
named_status s =
    if is_one_of s
      (codes "invalid_request_error" ∷ codes "invalid_argument" ∷ codes "bad_request" ∷ [])
    then some 400
    else if is_one_of s (codes "authentication_error" ∷ codes "unauthenticated" ∷ [])
    then some 401
    else if is_one_of s
        (codes "permission_error" ∷ codes "permission_denied" ∷ codes "forbidden" ∷ [])
    then some 403
    else if is_one_of s (codes "not_found_error" ∷ codes "not_found" ∷ [])
    then some 404
    else if is_one_of s (codes "conflict_error" ∷ [])
    then some 409
    else if is_one_of s (codes "unprocessable_entity" ∷ [])
    then some 422
    else if is_one_of s (
        codes "rate_limit_error"
        ∷ codes "rate_limit_exceeded"
        ∷ codes "too_many_requests"
        ∷ codes "insufficient_quota"
        ∷ [])
    then some 429
    else if is_one_of s (codes "server_error" ∷ codes "internal_server_error" ∷ [])
    then some 500
    else if is_one_of s (codes "overloaded_error" ∷ [])
    then some 529
    else none

abbrev real_status : ℕ → Option ℕ
real_status n = if leb 100 n && leb n 599 then some n else none

-- `status_field`.
unfoldable pub status_field : Value → Option ℕ
status_field (number (Number.nat n)) = real_status n
status_field (number (Number.neg n)) = none
status_field (number (Number.float s)) = none
status_field (string code) = named_status code
status_field null = none
status_field (bool b) = none
status_field (array vs) = none
status_field (object fs) = none

-- `Value::pointer` along keys that are no array positions.
unfoldable pub pointer : List Text → Value → Option Value
pointer [] v = some v
pointer (k ∷ ks) v = and_then (get k v) (λ w. pointer ks w)

-- `STATUS_POINTERS`.
abbrev pub status_pointers : List (List Text)
status_pointers =
    (codes "error" ∷ codes "status" ∷ [])
    ∷ (codes "error" ∷ codes "http_status" ∷ [])
    ∷ (codes "error" ∷ codes "code" ∷ [])
    ∷ (codes "status" ∷ [])
    ∷ (codes "code" ∷ [])
    ∷ []

abbrev pub or_later : Option ℕ → Option ℕ → Option ℕ
or_later none later = later
or_later (some n) later = some n

-- `STATUS_POINTERS.iter().find_map(…)`.
unfoldable pub find_status : List (List Text) → Value → Option ℕ
unfolding pointer status_field
find_status [] payload = none
find_status (p ∷ ps) payload =
    or_later (and_then (pointer p payload) status_field) (find_status ps payload)

-- `&message[message.find(['{', '['])?..]`.
unfoldable pub from_bracket : Text → Option Text
from_bracket [] = none
from_bracket (c ∷ s) = if c == b'{' || c == b'[' then some (c ∷ s) else from_bracket s

-- `UPSTREAM_DETAIL_LIMIT`.
abbrev pub upstream_detail_limit : ℕ
upstream_detail_limit = 512

unfoldable pub show_fuel : ℕ → ℕ → Text
show_fuel zero n = []
show_fuel (suc f) n =
    let front = show_fuel f (n / 10) in
    if ltb n 10 then (b'0' + n) ∷ [] else front ++ (b'0' + n % 10) ∷ []

-- A u16 in decimal: it has five digits at most.
unfoldable pub show_u16 : ℕ → Text
unfolding show_fuel
show_u16 n = show_fuel 5 n

module _ (from_str : Text → Option Value) where
  -- `status_from_error_payload`, with `error_payload`.
  unfoldable pub status_from_error_payload : Text → Option ℕ
  status_from_error_payload message =
      and_then (and_then (from_bracket message) from_str)
        (λ payload. find_status status_pointers payload)

  -- `upstream_status_or_recovered`.
  unfoldable pub upstream_status_or_recovered : Text → Option ℕ
  upstream_status_or_recovered message =
      or_later (upstream_status message) (status_from_error_payload message)

  -- `recovered_upstream_status`.
  unfoldable pub recovered_upstream_status : GatewayError → Option ℕ
  recovered_upstream_status (upstream message) = upstream_status_or_recovered message
  recovered_upstream_status (unknown_model m) = none
  recovered_upstream_status (invalid_request m) = none

  abbrev pub respell : Text → Option ℕ → Option ℕ → GatewayError
  respell message (some n) recovered = upstream message
  respell message none none = upstream message
  respell message none (some status) = upstream (
      codes "upstream status "
      ++ (show_u16 status ++ (codes ": " ++ take upstream_detail_limit message)))

  -- `with_recovered_status`.
  unfoldable pub with_recovered_status : GatewayError → GatewayError
  with_recovered_status (upstream message) =
      respell message (upstream_status message) (status_from_error_payload message)
  with_recovered_status (unknown_model m) = unknown_model m
  with_recovered_status (invalid_request m) = invalid_request m

  abbrev outage_status : Option ℕ → Bool
  outage_status none = true
  outage_status (some status) = leb 500 status

  -- `is_backend_outage`.
  unfoldable pub is_backend_outage : GatewayError → Bool
  is_backend_outage (upstream message) = outage_status (upstream_status_or_recovered message)
  is_backend_outage (unknown_model m) = false
  is_backend_outage (invalid_request m) = false

  abbrev transient_status : Option ℕ → Bool
  transient_status none = true
  transient_status (some status) = status == 429 || leb 500 status

  -- `RoutingBackend::is_transient`.
  unfoldable pub is_transient : GatewayError → Bool
  is_transient (upstream message) = transient_status (upstream_status_or_recovered message)
  is_transient (unknown_model m) = false
  is_transient (invalid_request m) = false
