-- ===== src/Translate/Gemini.antt =====
-- The Gemini stream adapter, its state and its chunks: `GeminiState` and the chunk functions of
-- crates/heterion-router-translate/src/gemini.rs. A u32 is a natural, cut to 32 bits where the code
-- casts or adds.
use heterion_router.Prelude.{
  ℕ, ◌+◌, ◌-◌, Bool, true, false, Option, none, some, List, [], ◌∷◌, ◌++◌, Text, codes, ltb, ◌==◌,
  ◌&&◌, if◌then◌else◌,
}
use heterion_router.Json.{
  Value, Items, Fields, null, bool, number, string, array, object, fields, insert_field, get,
  as_u64, and_then, unwrap_or,
}
use heterion_router.Translate.Int.{ℤ, wrap32}
use heterion_router.Translate.Chunk.{
  announce_role, chatcmpl_id, chunk_model, insert_text, chunk, stream_chunk, attach_usage, json_nat,
  usage_root, cached_prompt_details,
}
pub mod Events
pub mod Finish
pub mod Numbering
mod Tests

pub record GeminiUsage : Type 0 where
  pub prompt_tokens : ℕ
  pub completion_tokens : ℕ
  pub total_tokens : ℕ
  pub cached_tokens : ℕ
  pub reasoning_tokens : Option ℕ

pub record GeminiState : Type 0 where
  pub message_id : Option Text
  pub model : Option Text
  pub finish_sent : Bool
  pub usage : Option GeminiUsage
  pub upstream_error : Option Text
  pub tool_call_index : ℕ
  pub saw_tool_call : Bool
  pub role_sent : Bool

-- `GeminiState::default()`.
abbrev pub new : GeminiState
new = record {
  message_id = none;
  model = none;
  finish_sent = false;
  usage = none;
  upstream_error = none;
  tool_call_index = 0;
  saw_tool_call = false;
  role_sent = false;
}

abbrev pub or_field : Option Value → Option Value → Option Value
or_field none other = other
or_field (some v) other = some v

-- A chunk with the state's identity that ends nothing.
abbrev pub state_chunk : GeminiState → ℤ → Fields → Value
state_chunk s now delta =
    stream_chunk (chatcmpl_id s.message_id) now (chunk_model s.model) (object delta)

abbrev pub with_role : GeminiState → ℤ → (Fields → Fields) → Fields × Bool → GeminiState × Value
with_role s now extend (delta, sent) =
    (record s { role_sent = sent }, state_chunk (record s { role_sent = sent }) now (extend delta))

unfoldable pub role_chunk : GeminiState → ℤ → GeminiState × Value
role_chunk s now = with_role s now (λ delta. delta) (announce_role Fields.end s.role_sent)

unfoldable pub delta_chunk : GeminiState → ℤ → Option Text → Option Text → Value
delta_chunk s now content reasoning = state_chunk s now (insert_text Fields.end content reasoning)

unfoldable pub tool_chunk : GeminiState → ℤ → Value → GeminiState × Value
tool_chunk s now tool_calls =
    with_role s now (λ delta. insert_field (codes "tool_calls") tool_calls delta)
      (announce_role Fields.end s.role_sent)

abbrev pub insert_details : Option Value → Fields → Fields
insert_details none root = root
insert_details (some details) root = insert_field (codes "prompt_tokens_details") details root

abbrev pub insert_reasoning : Option ℕ → Fields → Fields
insert_reasoning none root = root
insert_reasoning (some n) root =
    insert_field (codes "completion_tokens_details")
      (object (Fields.field (codes "reasoning_tokens") (json_nat n) Fields.end)) root

abbrev pub usage_value : Option GeminiUsage → Option Value
usage_value none = none
usage_value (some u) = some (
    object (
      insert_reasoning u.reasoning_tokens (
        insert_details (cached_prompt_details u.cached_tokens 0)
          (usage_root u.prompt_tokens u.completion_tokens u.total_tokens))))

unfoldable pub finish_chunk : GeminiState → ℤ → Text → Value
finish_chunk s now reason =
    attach_usage
      (chunk (chatcmpl_id s.message_id) now (chunk_model s.model) (object Fields.end)
        (string reason))
      (usage_value s.usage)

-- `filter(|it| it.is_object())`.
abbrev pub only_object : Option Value → Option Value
only_object none = none
only_object (some (object fs)) = some (object fs)
only_object (some null) = none
only_object (some (bool b)) = none
only_object (some (number n)) = none
only_object (some (string s)) = none
only_object (some (array vs)) = none

-- A field of the response, or else of the whole payload.
abbrev pub field_of_either : Text → Value → Value → Option Value
field_of_either key response payload = only_object (or_field (get key response) (get key payload))

abbrev pub number_at : Text → Value → ℕ
number_at key meta = wrap32 (unwrap_or (and_then (get key meta) as_u64) 0)

abbrev pub candidates_of : ℕ → ℕ → ℕ → ℕ → ℕ
candidates_of candidates total prompt thoughts =
    if candidates == 0 && ltb 0 total then total - prompt - thoughts else candidates

abbrev pub usage_with : ℕ → ℕ → ℕ → ℕ → ℕ → GeminiUsage
usage_with cached prompt thoughts completion total = record {
  prompt_tokens = prompt;
  completion_tokens = completion;
  total_tokens = if ltb 0 total then total else wrap32 (prompt + completion);
  cached_tokens = cached;
  reasoning_tokens = if ltb 0 thoughts then some thoughts else none;
}

unfoldable pub usage_of : Value → GeminiUsage
usage_of meta =
    let prompt = number_at (codes "promptTokenCount") meta in
    let thoughts = number_at (codes "thoughtsTokenCount") meta in
    let total = number_at (codes "totalTokenCount") meta in
    let candidates =
      candidates_of (number_at (codes "candidatesTokenCount") meta) total prompt thoughts in
    usage_with (number_at (codes "cachedContentTokenCount") meta) prompt thoughts
      (wrap32 (candidates + thoughts)) total

abbrev pub with_usage : GeminiState → Option Value → GeminiState
with_usage s none = s
with_usage s (some meta) = record s { usage = some (usage_of meta) }

unfoldable pub capture_usage : GeminiState → Value → Value → GeminiState
capture_usage s response payload =
    with_usage s (field_of_either (codes "usageMetadata") response payload)
