-- ===== src/Translate/Responses.antt =====
-- The Responses API stream adapter, its state and its chunks: `ResponsesState`, `extract_usage` and
-- the chunk functions of crates/heterion-router-translate/src/responses.rs. A u32 is a natural, cut to
-- 32 bits where the code casts or adds; `fallback_seq`, a u64 that counts events, does not wrap.
use heterion_router.Prelude.{
  ℕ, ◌+◌, Bool, true, false, Option, none, some, List, [], ◌∷◌, ◌++◌, Text, codes, ltb, ◌==◌,
  if◌then◌else◌,
}
use heterion_router.Json.{
  Value, Items, Fields, null, bool, number, string, array, object, insert_field, get, as_str,
  as_u64, and_then, unwrap_or,
}
use heterion_router.Translate.Int.{ℤ, wrap32}
use heterion_router.Translate.Chunk.{
  announce_role, insert_text, chunk, stream_chunk, attach_usage, json_nat, usage_root,
  cached_prompt_details,
}
pub mod Calls
pub mod Events
pub mod Quiet
pub mod Finish
pub mod Nameless
mod Tests

pub record ToolCallEntry : Type 0 where
  pub index : Option ℕ
  pub name : Text
  pub args : Text

pub record ResponsesState : Type 0 where
  pub chat_id : Text
  pub created : ℤ
  pub model : Text
  pub role_sent : Bool
  pub finish_sent : Bool
  pub tool_call_index : ℕ
  pub tool_calls : List (Text × ToolCallEntry)
  pub item_to_call : List (Text × Text)
  pub output_index_to_call : List (ℤ × Text)
  pub current_tool_call : Option Text
  pub fallback_seq : ℕ

-- `ResponsesState::new`.
abbrev pub new : Text → ℤ → Text → ResponsesState
new chat_id created model = record {
  chat_id = chat_id;
  created = created;
  model = model;
  role_sent = false;
  finish_sent = false;
  tool_call_index = 0;
  tool_calls = [];
  item_to_call = [];
  output_index_to_call = [];
  current_tool_call = none;
  fallback_seq = 0;
}

pub record TranslatedUsage : Type 0 where
  pub prompt_tokens : ℕ
  pub completion_tokens : ℕ
  pub cached_tokens : ℕ
  pub cache_creation_tokens : ℕ
  pub reasoning_tokens : ℕ

pub data Converted : Type 0 where
  emit : Value → Converted
  ignore : Converted
  fail : Text → Converted

abbrev pub with_role :
    ResponsesState → (Fields → Fields) → Fields × Bool → ResponsesState × Converted
with_role s extend (delta, sent) = (
  record s { role_sent = sent },
  emit (stream_chunk s.chat_id s.created s.model (object (extend delta))),
)

-- `Emit(delta_chunk(…))`.
unfoldable pub delta_chunk : ResponsesState → Option Text → Option Text → ResponsesState × Converted
delta_chunk s content reasoning =
    with_role s (λ delta. insert_text delta content reasoning)
      (announce_role Fields.end s.role_sent)

-- `Emit(tool_chunk(…))`.
unfoldable pub tool_chunk : ResponsesState → Value → ResponsesState × Converted
tool_chunk s tool_calls =
    with_role s (λ delta. insert_field (codes "tool_calls") tool_calls delta)
      (announce_role Fields.end s.role_sent)

abbrev pub opened : Option Text → Bool
opened none = false
opened (some call_id) = true

unfoldable pub compute_finish_reason : ResponsesState → Text
compute_finish_reason s =
    if ltb 0 s.tool_call_index
    then codes "tool_calls"
    else if opened s.current_tool_call
    then codes "tool_calls"
    else codes "stop"

abbrev pub insert_details : Option Value → Fields → Fields
insert_details none root = root
insert_details (some details) root = insert_field (codes "prompt_tokens_details") details root

abbrev pub insert_reasoning : ℕ → Fields → Fields
insert_reasoning n root =
    if ltb 0 n
    then insert_field (codes "completion_tokens_details")
        (object (Fields.field (codes "reasoning_tokens") (json_nat n) Fields.end)) root
    else root

unfoldable pub usage_json : TranslatedUsage → Value
usage_json u = object (
    insert_reasoning u.reasoning_tokens (
      insert_details (cached_prompt_details u.cached_tokens u.cache_creation_tokens) (
        usage_root u.prompt_tokens u.completion_tokens
          (wrap32 (u.prompt_tokens + u.completion_tokens)))))

abbrev pub usage_value : Option TranslatedUsage → Option Value
usage_value none = none
usage_value (some u) = some (usage_json u)

unfoldable pub finish_chunk : ResponsesState → Text → Option TranslatedUsage → Value
finish_chunk s reason usage =
    attach_usage (chunk s.chat_id s.created s.model (object Fields.end) (string reason))
      (usage_value usage)

-- `u64_at`.
unfoldable pub u64_at : Value → List Text → Option ℕ
u64_at value [] = as_u64 value
u64_at value (key ∷ path) = and_then (get key value) (λ v. u64_at v path)

abbrev pub or_next : Option ℕ → ℕ → ℕ
or_next none next = next
or_next (some n) next = if n == 0 then next else n

unfoldable pub first_of_all : List (Option ℕ) → ℕ
first_of_all [] = 0
first_of_all (o ∷ os) = or_next o (first_of_all os)

-- `first_nonzero`.
unfoldable pub first_nonzero : List (Option ℕ) → ℕ
first_nonzero candidates = wrap32 (first_of_all candidates)

abbrev pub prompt_with : Option Value → ℕ → ℕ → ℕ → ℕ
prompt_with none input cached cache_creation = input
prompt_with (some v) input cached cache_creation = wrap32 (input + wrap32 (cached + cache_creation))

abbrev pub usage_with : Value → ℕ → ℕ → TranslatedUsage
usage_with usage cached cache_creation = record {
  prompt_tokens =
      prompt_with (get (codes "cache_read_input_tokens") usage)
        (first_nonzero (
          u64_at usage (codes "input_tokens" ∷ [])
          ∷ u64_at usage (codes "prompt_tokens" ∷ [])
          ∷ []))
        cached cache_creation;
  completion_tokens = first_nonzero (
      u64_at usage (codes "output_tokens" ∷ [])
      ∷ u64_at usage (codes "completion_tokens" ∷ [])
      ∷ []);
  cached_tokens = cached;
  cache_creation_tokens = cache_creation;
  reasoning_tokens = first_nonzero (
      u64_at usage (codes "output_tokens_details" ∷ codes "reasoning_tokens" ∷ [])
      ∷ u64_at usage (codes "completion_tokens_details" ∷ codes "reasoning_tokens" ∷ [])
      ∷ u64_at usage (codes "reasoning_tokens" ∷ [])
      ∷ []);
}

abbrev pub usage_of : Value → TranslatedUsage
usage_of usage =
    usage_with usage
      (first_nonzero (
        u64_at usage (codes "cache_read_input_tokens" ∷ [])
        ∷ u64_at usage (codes "input_tokens_details" ∷ codes "cached_tokens" ∷ [])
        ∷ u64_at usage (codes "prompt_tokens_details" ∷ codes "cached_tokens" ∷ [])
        ∷ []))
      (first_nonzero (u64_at usage (codes "cache_creation_input_tokens" ∷ []) ∷ []))

-- Only an object counts.
abbrev pub usage_of_object : Value → Option TranslatedUsage
usage_of_object (object fs) = some (usage_of (object fs))
usage_of_object null = none
usage_of_object (bool b) = none
usage_of_object (number n) = none
usage_of_object (string s) = none
usage_of_object (array vs) = none

unfoldable pub extract_usage : Value → Option TranslatedUsage
extract_usage payload =
    and_then (and_then (get (codes "response") payload) (get (codes "usage"))) usage_of_object

abbrev pub or_text : Option Text → Option Text → Option Text
or_text none other = other
or_text (some t) other = some t

unfoldable pub error_message : Value → Text
error_message payload =
    unwrap_or
      (or_text (and_then (and_then (get (codes "error") payload) (get (codes "message"))) as_str)
        (and_then (get (codes "message") payload) as_str))
      (codes "upstream error")
