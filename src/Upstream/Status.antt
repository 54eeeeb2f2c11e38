-- ===== src/Upstream/Status.antt =====
-- How the two classifications relate.
use heterion_router.Prelude.{ℕ, ◌≡◌, refl, Bool, false, ◌||◌, Option, none, some, Text, ◌==◌, arith}
use heterion_router.Json.{Value}
use heterion_router.Upstream.{
  GatewayError, upstream, unknown_model, invalid_request, recovered_upstream_status,
  is_backend_outage, is_transient,
}

abbrev pub is_rate_limit : Option ℕ → Bool
is_rate_limit none = false
is_rate_limit (some status) = status == 429

-- An error is worth a retry exactly if it is an outage of the backend or the status 429: a refusal
-- is never retried, and every outage is.
pub is_transient-outage :
    (from_str : Text → Option Value) (e : GatewayError)
    → is_transient from_str e
      ≡ (is_backend_outage from_str e || is_rate_limit (recovered_upstream_status from_str e))
unfolding is_transient is_backend_outage recovered_upstream_status
is_transient-outage from_str (upstream m) = ground arith
is_transient-outage from_str (unknown_model m) = refl
is_transient-outage from_str (invalid_request m) = refl
