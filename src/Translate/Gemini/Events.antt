-- ===== src/Translate/Gemini/Events.antt =====
-- The Gemini stream adapter: `convert_event` in crates/heterion-router-translate/src/gemini.rs.
-- `Value::to_string` and `str::to_lowercase` are parameters.
use heterion_router.Prelude.{
  ℕ, ◌+◌, Bool, true, false, Option, none, some, List, [], ◌∷◌, ◌++◌, Text, codes, text_eq,
  is_empty, if◌then◌else◌,
}
use heterion_router.Json.{
  Value, Items, Fields, string, array, object, fields, insert_field, get, as_str, as_bool, as_array,
  and_then, unwrap_or,
}
use heterion_router.Translate.Int.{ℤ, pos, show_int, wrap32}
use heterion_router.Translate.Chunk.{json_nat}
use heterion_router.Translate.Reader.{head}
use heterion_router.Translate.Gemini.{
  GeminiState, or_field, role_chunk, delta_chunk, tool_chunk, finish_chunk, field_of_either,
  capture_usage,
}

abbrev pub nonempty : Option Text → Option Text
nonempty none = none
nonempty (some s) = if is_empty s then none else some s

unfoldable pub thought_signature : Value → Option Text
thought_signature part = nonempty (
    and_then (or_field (get (codes "thoughtSignature") part) (get (codes "thought_signature") part))
      as_str)

-- `list.contains(&text)`.
unfoldable pub contains : List Text → Text → Bool
contains [] text = false
contains (t ∷ ts) text = let later = contains ts text in if text_eq t text then true else later

abbrev pub openai_reasons : List Text
openai_reasons =
    codes "stop"
    ∷ codes "length"
    ∷ codes "tool_calls"
    ∷ codes "content_filter"
    ∷ codes "function_call"
    ∷ []

abbrev pub safety_reasons : List Text
safety_reasons =
    codes "safety"
    ∷ codes "recitation"
    ∷ codes "blocklist"
    ∷ codes "prohibited_content"
    ∷ codes "content_filtered"
    ∷ codes "policy_violation"
    ∷ codes "malformed_response"
    ∷ []

abbrev pub reason_of_lower : Text → Text
reason_of_lower normalized =
    if contains openai_reasons normalized
    then normalized
    else if text_eq normalized (codes "max_tokens")
    then codes "length"
    else if contains safety_reasons normalized
    then codes "content_filter"
    else if is_empty normalized
    then codes "stop"
    else normalized

-- `candidates.first()` of the response.
abbrev pub candidate_of : Value → Option Value
candidate_of response = and_then (and_then (get (codes "candidates") response) as_array) head

abbrev pub record_error : GeminiState → Option Value → GeminiState
record_error s none = s
record_error s (some error) = record s {
  upstream_error =
      some (
        unwrap_or (and_then (get (codes "message") error) as_str)
          (codes "Gemini upstream failure"));
}

-- `record_upstream_error`.
unfoldable pub record_upstream_error : GeminiState → Value → Value → GeminiState
record_upstream_error s response payload =
    record_error s (field_of_either (codes "error") response payload)

abbrev pub or_stamp : Option Text → ℤ → Option Text
or_stamp none now = some (codes "msg_" ++ show_int now)
or_stamp (some id) now = some id

abbrev pub one_out : GeminiState × Value → GeminiState × List Value
one_out (s, v) = (s, v ∷ [])

-- The identity that the first candidate gives.
abbrev pub identified : GeminiState → Value → ℤ → GeminiState
identified s response now = record s {
  message_id = or_stamp (and_then (get (codes "responseId") response) as_str) now;
  model = and_then (get (codes "modelVersion") response) as_str;
}

-- The identity and the role chunk, at the first candidate.
abbrev pub announce : GeminiState → Option Text → Value → ℤ → GeminiState × List Value
announce s (some id) response now = (s, [])
announce s none response now = one_out (role_chunk (identified s response now) now)

-- `tool_call_index` moves on.
abbrev pub counted : GeminiState → GeminiState
counted s = record s { tool_call_index = wrap32 (s.tool_call_index + 1); saw_tool_call = true }

abbrev pub sign : Option Text → Fields → Fields
sign none call = call
sign (some signature) call =
    insert_field (codes "extra_content")
      (object (
        Fields.field (codes "google")
          (object (Fields.field (codes "thought_signature") (string signature) Fields.end))
          Fields.end))
      call

abbrev pub prepend : List Value → GeminiState × List Value → GeminiState × List Value
prepend vs (s, more) = (s, vs ++ more)

abbrev pub parts_of : Value → List Value
parts_of candidate =
    unwrap_or (and_then (and_then (get (codes "content") candidate) (get (codes "parts"))) as_array)
      []

abbrev pub finish_reason_at : Value → Option Text
finish_reason_at candidate = and_then (get (codes "finishReason") candidate) as_str

abbrev pub response_of : Value → Value
response_of payload = unwrap_or (get (codes "response") payload) payload

module _ (to_string : Value → Text) (to_lowercase : Text → Text) where
  unfoldable pub normalize_finish_reason : Text → Text
  normalize_finish_reason reason = reason_of_lower (to_lowercase reason)

  abbrev pub arguments_of : Option Value → Text
  arguments_of none = codes "{}"
  arguments_of (some args) = to_string args

  -- The id of a call: a u32 has fewer than twenty digits.
  abbrev pub call_id : GeminiState → ℕ → Text
  call_id s index = unwrap_or s.message_id (codes "call") ++ codes "-" ++ show_int (pos index)

  unfoldable pub tool_call : GeminiState → Value → Value → Text → ℕ → Value
  unfolding fields
  tool_call s part call name index = object (
      sign (thought_signature part) (
        fields (
          (codes "index", json_nat index)
          ∷ (codes "id", string (call_id s index))
          ∷ (codes "type", string (codes "function"))
          ∷ (
            codes "function",
            object (
                fields (
                  (codes "name", string name)
                  ∷ (codes "arguments", string (arguments_of (get (codes "args") call)))
                  ∷ [])),
          )
          ∷ [])))

  -- A `functionCall` with a name.
  abbrev pub calls_of : GeminiState → Value → Value → Text → Value
  calls_of s part call name =
      array (Items.cons (tool_call (counted s) part call name s.tool_call_index) Items.nil)

  abbrev pub send_call : GeminiState → ℤ → Value → Value → Text → GeminiState × List Value
  send_call s now part call name = one_out (tool_chunk (counted s) now (calls_of s part call name))

  abbrev pub call_part : GeminiState → ℤ → Value → Value → GeminiState × List Value
  call_part s now part call =
      let name = unwrap_or (and_then (get (codes "name") call) as_str) [] in
      if is_empty name then (s, []) else send_call s now part call name

  abbrev pub text_part : GeminiState → ℤ → Value → GeminiState × List Value
  text_part s now part =
      let text = unwrap_or (and_then (get (codes "text") part) as_str) [] in
      if is_empty text
      then (s, [])
      else if unwrap_or (and_then (get (codes "thought") part) as_bool) false
      then (s, delta_chunk s now none (some text) ∷ [])
      else (s, delta_chunk s now (some text) none ∷ [])

  abbrev pub part_of : GeminiState → ℤ → Value → Option Value → GeminiState × List Value
  part_of s now part (some call) = call_part s now part call
  part_of s now part none = text_part s now part

  -- One round of the loop over the parts.
  abbrev pub convert_part : GeminiState → ℤ → Value → GeminiState × List Value
  convert_part s now part = part_of s now part (get (codes "functionCall") part)

  unfoldable pub convert_parts : GeminiState → ℤ → List Value → GeminiState × List Value
  convert_parts s now [] = (s, [])
  convert_parts s now (part ∷ parts) =
      let r = convert_part s now part in prepend r.1 (convert_parts r.0 now parts)

  abbrev pub final_reason : GeminiState → Text → Text
  final_reason s reason =
      if s.saw_tool_call then codes "tool_calls" else normalize_finish_reason reason

  -- The finish chunk, unless one went out.
  abbrev pub finish : GeminiState → ℤ → Option Text → GeminiState × List Value
  finish s now none = (s, [])
  finish s now (some reason) = if s.finish_sent then (s, []) else (
    record s { finish_sent = true },
    finish_chunk (record s { finish_sent = true }) now (final_reason s reason) ∷ [],
  )

  -- The announcement, the parts and the end, in this order.
  abbrev pub end_step :
      Value → Value → Value → ℤ → GeminiState × List Value → GeminiState × List Value
  end_step response payload candidate now (s, vs) =
      prepend vs (finish (capture_usage s response payload) now (finish_reason_at candidate))

  abbrev pub parts_step : Value → ℤ → GeminiState × List Value → GeminiState × List Value
  parts_step candidate now (s, vs) = prepend vs (convert_parts s now (parts_of candidate))

  abbrev pub on_candidate :
      GeminiState → Value → Value → ℤ → Option Value → GeminiState × List Value
  on_candidate s response payload now none = (record_upstream_error s response payload, [])
  on_candidate s response payload now (some candidate) =
      end_step response payload candidate now
        (parts_step candidate now (announce s s.message_id response now))

  unfoldable pub convert_event : GeminiState → Value → ℤ → GeminiState × List Value
  convert_event s payload now =
      on_candidate s (response_of payload) payload now (candidate_of (response_of payload))
