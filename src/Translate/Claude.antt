-- ===== src/Translate/Claude.antt =====
-- The Claude stream adapter, its state and its chunks: `ClaudeState` and the chunk functions of
-- crates/heterion-router-translate/src/claude.rs.
use heterion_router.Prelude.{
  ℕ, zero, suc, ◌+◌, Bool, true, false, Option, none, some, List, [], ◌∷◌, ◌++◌, Text, codes,
  text_eq, is_empty, if◌then◌else◌,
}
use heterion_router.Json.{
  Value, Items, Fields, string, array, object, fields, insert_field, get, as_str, and_then,
  unwrap_or,
}
use heterion_router.Translate.Int.{ℤ, negsuc, int_eq, as_i64, show_int, wrap32}
use heterion_router.Translate.Chunk.{
  role_assistant, chatcmpl_id, chunk_model, insert_text, chunk, stream_chunk, attach_usage,
  json_nat, usage_root, cached_prompt_details,
}
use heterion_router.Translate.Usage.{ClaudeUsage, first_usage, merge_usage}
pub mod Tools
pub mod Events
pub mod Stream
pub mod Blocks
pub mod Fragments
pub mod Calls
pub mod Chunks
pub mod Numbering
pub mod Quiet
pub mod Finish

pub record ToolCallAcc : Type 0 where
  pub block_index : ℤ
  pub id : Text
  pub name : Text
  pub arguments : Text

pub record ClaudeState : Type 0 where
  pub message_id : Option Text
  pub model : Option Text
  pub finish_sent : Bool
  pub finish_reason : Option Text
  pub usage : Option ClaudeUsage
  pub tools : List ToolCallAcc
  pub next_tool_index : ℕ

-- `ClaudeState::default()`.
abbrev pub new : ClaudeState
new = record {
  message_id = none;
  model = none;
  finish_sent = false;
  finish_reason = none;
  usage = none;
  tools = [];
  next_tool_index = 0;
}

pub data Converted : Type 0 where
  emit : Value → Converted
  ignore : Converted

-- A chunk with the state's identity that ends nothing.
abbrev pub state_chunk : ClaudeState → ℤ → Value → Value
state_chunk s now delta = stream_chunk (chatcmpl_id s.message_id) now (chunk_model s.model) delta

unfoldable pub role_chunk : ClaudeState → ℤ → Value
unfolding fields
role_chunk s now = state_chunk s now (object (fields ((codes "role", string role_assistant) ∷ [])))

unfoldable pub delta_chunk : ClaudeState → ℤ → Option Text → Option Text → Value
delta_chunk s now content reasoning =
    state_chunk s now (object (insert_text Fields.end content reasoning))

abbrev pub one_item : Value → Value
one_item v = array (Items.cons v Items.nil)

unfoldable pub tool_call_chunk : ClaudeState → ℤ → ℕ → ToolCallAcc → Value
unfolding fields
tool_call_chunk s now tool_index acc = state_chunk s now (
    object (
      fields (
        (
          codes "tool_calls",
          one_item (
              object (
                fields (
                  (codes "index", json_nat tool_index)
                  ∷ (codes "type", string (codes "function"))
                  ∷ (codes "id", string acc.id)
                  ∷ (
                    codes "function",
                    object (
                        fields (
                          (codes "name", string acc.name)
                          ∷ (codes "arguments", string acc.arguments)
                          ∷ [])),
                  )
                  ∷ []))),
        )
        ∷ [])))

abbrev pub insert_reasoning : Option ℕ → Fields → Fields
insert_reasoning none root = root
insert_reasoning (some n) root =
    insert_field (codes "completion_tokens_details")
      (object (Fields.field (codes "reasoning_tokens") (json_nat n) Fields.end))
      (insert_field (codes "reasoning_tokens") (json_nat n) root)

abbrev pub insert_details : Option Value → Fields → Fields
insert_details none root = root
insert_details (some details) root = insert_field (codes "prompt_tokens_details") details root

unfoldable pub usage_object : ClaudeUsage → Value
usage_object u = object (
    insert_details (cached_prompt_details u.cache_read u.cache_creation)
      (insert_reasoning u.reasoning (usage_root u.input u.output (wrap32 (u.input + u.output)))))

abbrev pub usage_value : Option ClaudeUsage → Option Value
usage_value none = none
usage_value (some u) = some (usage_object u)

unfoldable pub finish_chunk : ClaudeState → ℤ → Value
finish_chunk s now =
    attach_usage
      (chunk (chatcmpl_id s.message_id) now (chunk_model s.model) (object Fields.end)
        (string (unwrap_or s.finish_reason (codes "stop"))))
      (usage_value s.usage)
