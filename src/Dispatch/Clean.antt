-- ===== src/Dispatch/Clean.antt =====
-- No upstream ever sees the gateway's own fields.
use heterion_router.Prelude.{◌≡◌, true, false, none, Text, codes, text_eq, arith}
use heterion_router.Json.{get_field, remove_field, lookup-remove_self, lookup-remove}
use heterion_router.Dispatch.Request.{
  ChatCompletionRequest, attribution_token, attempt, remove_all, rejects_reasoning_effort,
}

-- A request that an upstream may see: it has neither the attribution token nor `store`, and no
-- reasoning effort for a model that rejects it.
pub record IsClean (request : ChatCompletionRequest) : Type 0 where
  pub no_token : get_field attribution_token request.extra ≡ none
  pub no_store : get_field (codes "store") request.extra ≡ none
  pub no_effort : rejects_reasoning_effort request.model ≡ true → request.reasoning_effort ≡ none

-- Every attempt is clean, whatever the client sent.
pub attempt-IsClean :
    (request : ChatCompletionRequest) (model : Text) → IsClean (attempt request model)
unfolding attempt remove_all
attempt-IsClean request model = record {
  no_token = ground (
    arith,
    lookup-remove (codes "store") attribution_token (remove_field attribution_token request.extra),
    lookup-remove_self attribution_token request.extra,
  );
  no_store = lookup-remove_self (codes "store") (remove_field attribution_token request.extra);
  no_effort = λ h. ground arith;
}

-- An attempt keeps every other extra field of the client's request.
pub attempt_extra :
    (request : ChatCompletionRequest) (model k : Text)
    → text_eq attribution_token k ≡ false
    → text_eq (codes "store") k ≡ false
    → get_field k (attempt request model).extra ≡ get_field k request.extra
unfolding attempt remove_all
attempt_extra request model k h s = ground (
  arith,
  lookup-remove (codes "store") k (remove_field attribution_token request.extra),
  lookup-remove attribution_token k request.extra,
)
