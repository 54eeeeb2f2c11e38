-- ===== src/Upstream/Tests.antt =====
-- Messages of the gateway's unit tests, and a decoder that knows one payload.
use heterion_router.Prelude.{
  ◌≡◌, refl, true, Option, none, some, Text, codes, text_eq, if◌then◌else◌, strip_prefix,
}
use heterion_router.Json.{Value, Number, Fields, number, object, get_field}
use heterion_router.Upstream.{
  upstream, upstream_status, recovered_upstream_status, is_transient, with_recovered_status,
  upstream_status_or_recovered, status_from_error_payload, from_bracket, find_status, pointer,
  status_field,
}
use heterion_router.Upstream.Recovered.{named, with_recovered_status-status}

-- `{"error":{"code":429}}`, as the one text this decoder knows.
abbrev limited : Value
limited = object (
    Fields.field (codes "error")
      (object (Fields.field (codes "code") (number (Number.nat 429)) Fields.end)) Fields.end)

abbrev from_str : Text → Option Value
from_str s = if text_eq s (codes "[limited") then some limited else none

abbrev message : Text
message = codes "rate limited: [limited"

test_recovered : recovered_upstream_status from_str (upstream message) ≡ some 429
unfolding recovered_upstream_status upstream_status_or_recovered upstream_status strip_prefix
    status_from_error_payload from_bracket text_eq find_status get_field pointer status_field
test_recovered = refl

test_transport : is_transient from_str (upstream (codes "dns failure")) ≡ true
unfolding is_transient upstream_status_or_recovered upstream_status strip_prefix
    status_from_error_payload from_bracket
test_transport = refl

with_recovered_status-status_example :
    named (with_recovered_status from_str (upstream message))
    ≡ recovered_upstream_status from_str (upstream message)
with_recovered_status-status_example = with_recovered_status-status from_str (upstream message)
