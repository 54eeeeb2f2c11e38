-- ===== src/Dispatch/Request.antt =====
-- The request, as one candidate is sent it: `ChatCompletionRequest` in
-- crates/heterion-router-core/src/chat.rs, lines 186-228; `attempt` in routing.rs, lines 91-110;
-- `rejects_reasoning_effort` in reasoning.rs; `request_token` in backend.rs, lines 79-86. A message
-- is kept as its JSON, a float by its spelling.
use heterion_router.Prelude.{
  ℕ, ◌+◌, Bool, ◌&&◌, ◌||◌, Option, none, List, [], ◌∷◌, Text, codes, map, leb, ◌==◌, if◌then◌else◌,
  starts_with,
}
use heterion_router.Json.{Value, Fields, Number, get_field, remove_field, as_str, and_then}

pub record ChatCompletionRequest : Type 0 where
  pub model : Text
  pub messages : List Value
  pub stream : Bool
  pub max_tokens : Option ℕ
  pub temperature : Option Text
  pub top_p : Option Text
  pub tools : Option Value
  pub tool_choice : Option Value
  pub response_format : Option Value
  pub stop : Option Value
  pub top_k : Option ℕ
  pub max_completion_tokens : Option ℕ
  pub reasoning_effort : Option Text
  pub stream_options : Option Value
  pub parallel_tool_calls : Option Bool
  pub metadata : Option Value
  pub service_tier : Option Text
  pub seed : Option Number
  pub verbosity : Option Text
  pub extra : Fields
  pub responses_input : Option Value

-- `ATTRIBUTION_TOKEN`.
abbrev pub attribution_token : Text
attribution_token = codes "_heterion_router_attribution"

-- `request_token`.
unfoldable pub request_token : ChatCompletionRequest → Option Text
request_token request = and_then (get_field attribution_token request.extra) as_str

abbrev lower_char : ℕ → ℕ
lower_char c = if leb b'A' c && leb c b'Z' then c + 32 else c

-- `str::to_ascii_lowercase`.
unfoldable pub to_ascii_lowercase : Text → Text
to_ascii_lowercase s = map lower_char s

bare_from : Text → Text → Text
bare_from segment [] = segment
bare_from segment (c ∷ s) = if c == b'/' then bare_from s s else bare_from segment s

-- `rsplit('/').next()`: what stands behind the last slash.
unfoldable pub bare_model : Text → Text
unfolding bare_from
bare_model model = bare_from model model

-- `rejects_reasoning_effort`.
unfoldable pub rejects_reasoning_effort : Text → Bool
rejects_reasoning_effort model =
    let bare = to_ascii_lowercase (bare_model model) in
    starts_with (codes "codestral") bare
    || starts_with (codes "mistral") bare
    || starts_with (codes "ministral") bare

-- `OPENAI_ONLY_FIELDS`.
abbrev pub openai_only_fields : List Text
openai_only_fields = codes "store" ∷ []

unfoldable pub remove_all : List Text → Fields → Fields
remove_all [] extra = extra
remove_all (f ∷ fs) extra = remove_all fs (remove_field f extra)

-- `attempt`.
unfoldable pub attempt : ChatCompletionRequest → Text → ChatCompletionRequest
attempt request model = record request {
  model = model;
  extra = remove_all openai_only_fields (remove_field attribution_token request.extra);
  reasoning_effort = if rejects_reasoning_effort model then none else request.reasoning_effort;
}
