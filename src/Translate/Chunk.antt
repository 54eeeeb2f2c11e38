-- ===== src/Translate/Chunk.antt =====
-- The envelope of an OpenAI stream chunk: crates/heterion-router-translate/src/chunk.rs.
use heterion_router.Prelude.{
  ℕ, Bool, true, false, ◌&&◌, Option, none, some, [], ◌∷◌, ◌++◌, Text, codes, ltb, ◌==◌,
  if◌then◌else◌,
}
use heterion_router.Json.{
  Value, Items, Fields, Number, null, string, number, array, object, fields, insert_field,
  unwrap_or,
}
use heterion_router.Translate.Int.{ℤ, json_int}

-- `OBJECT`.
abbrev pub object_name : Text
object_name = codes "chat.completion.chunk"

-- `ROLE_ASSISTANT`.
abbrev pub role_assistant : Text
role_assistant = codes "assistant"

-- `UNKNOWN`.
abbrev pub unknown : Text
unknown = codes "unknown"

unfoldable pub chatcmpl_id : Option Text → Text
chatcmpl_id message_id = codes "chatcmpl-" ++ unwrap_or message_id unknown

unfoldable pub chunk_model : Option Text → Text
chunk_model model = unwrap_or model unknown

-- `announce_role`: the delta, and `role_sent` after it.
unfoldable pub announce_role : Fields → Bool → Fields × Bool
announce_role delta true = (delta, true)
announce_role delta false = (insert_field (codes "role") (string role_assistant) delta, true)

abbrev pub insert_some : Text → Option Text → Fields → Fields
insert_some key none delta = delta
insert_some key (some text) delta = insert_field key (string text) delta

unfoldable pub insert_text : Fields → Option Text → Option Text → Fields
insert_text delta content reasoning =
    insert_some (codes "reasoning_content") reasoning (insert_some (codes "content") content delta)

unfoldable pub chunk : Text → ℤ → Text → Value → Value → Value
unfolding fields
chunk id created model delta finish_reason = object (
    fields (
      (codes "id", string id)
      ∷ (codes "object", string object_name)
      ∷ (codes "created", json_int created)
      ∷ (codes "model", string model)
      ∷ (
        codes "choices",
        array (
            Items.cons
              (object (
                fields (
                  (codes "index", number (Number.nat 0))
                  ∷ (codes "delta", delta)
                  ∷ (codes "finish_reason", finish_reason)
                  ∷ [])))
              Items.nil),
      )
      ∷ []))

unfoldable pub stream_chunk : Text → ℤ → Text → Value → Value
stream_chunk id created model delta = chunk id created model delta null

-- `chunk` is an object: the code panics on anything else.
abbrev pub insert_usage : Value → Value → Value
insert_usage usage (object fs) = object (insert_field (codes "usage") usage fs)
insert_usage usage null = null
insert_usage usage (Value.bool b) = Value.bool b
insert_usage usage (number n) = number n
insert_usage usage (string s) = string s
insert_usage usage (array vs) = array vs

unfoldable pub attach_usage : Value → Option Value → Value
attach_usage chunk none = chunk
attach_usage chunk (some usage) = insert_usage usage chunk

abbrev pub json_nat : ℕ → Value
json_nat n = number (Number.nat n)

unfoldable pub usage_root : ℕ → ℕ → ℕ → Fields
unfolding fields
usage_root prompt_tokens completion_tokens total_tokens = fields (
    (codes "prompt_tokens", json_nat prompt_tokens)
    ∷ (codes "completion_tokens", json_nat completion_tokens)
    ∷ (codes "total_tokens", json_nat total_tokens)
    ∷ [])

abbrev pub insert_positive : Text → ℕ → Fields → Fields
insert_positive key n details = if ltb 0 n then insert_field key (json_nat n) details else details

unfoldable pub cached_prompt_details : ℕ → ℕ → Option Value
cached_prompt_details cached cache_creation =
    if cached == 0 && cache_creation == 0
    then none
    else some (
        object (
          insert_positive (codes "cache_creation_tokens") cache_creation
            (insert_positive (codes "cached_tokens") cached Fields.end)))
