-- ===== src/Translate/Claude/Events.antt =====
-- The Claude stream adapter: `convert_event` in crates/heterion-router-translate/src/claude.rs. A
-- handler gives the state after it and what it emits.
use heterion_router.Prelude.{
  ◌+◌, Bool, true, false, Option, none, some, List, [], ◌∷◌, ◌++◌, Text, codes, text_eq, is_empty,
  if◌then◌else◌,
}
use heterion_router.Json.{Value, get, as_str, and_then, unwrap_or}
use heterion_router.Translate.Int.{ℤ, negsuc, as_i64, show_int}
use heterion_router.Translate.Usage.{ClaudeUsage, first_usage, merge_usage}
use heterion_router.Translate.Claude.{
  ToolCallAcc, ClaudeState, Converted, emit, ignore, role_chunk, delta_chunk, tool_call_chunk,
  finish_chunk,
}
use heterion_router.Translate.Claude.Tools.{take_acc, push_fragment}

-- `data.get(outer).and_then(|it| it.get(inner)).and_then(Value::as_str)`.
abbrev pub str_at : Text → Text → Value → Option Text
str_at outer inner payload = and_then (and_then (get outer payload) (get inner)) as_str

-- `.or_else(|| Some(format!("msg_{now}")))`.
abbrev pub or_stamp : Option Text → ℤ → Option Text
or_stamp none now = some (codes "msg_" ++ show_int now)
or_stamp (some id) now = some id

abbrev pub usage_of_start : Option ClaudeUsage → Option Value → Option ClaudeUsage
usage_of_start previous none = previous
usage_of_start previous (some usage) = first_usage previous usage

abbrev pub started : ClaudeState → Value → ℤ → ClaudeState
started s payload now = record s {
  message_id = or_stamp (str_at (codes "message") (codes "id") payload) now;
  model = str_at (codes "message") (codes "model") payload;
  usage = usage_of_start s.usage (and_then (get (codes "message") payload) (get (codes "usage")));
}

abbrev pub emit_role : ℤ → ClaudeState → ClaudeState × Converted
emit_role now s = (s, emit (role_chunk s now))

-- "message_start".
unfoldable pub message_start : ClaudeState → Value → ℤ → ClaudeState × Converted
message_start s payload now = emit_role now (started s payload now)

abbrev pub is_tool_use : Option Text → Bool
is_tool_use none = false
is_tool_use (some kind) = text_eq kind (codes "tool_use")

-- The index of a block, -1 where the event has none.
abbrev pub index_of : Value → ℤ
index_of payload = unwrap_or (and_then (get (codes "index") payload) as_i64) (negsuc 0)

abbrev pub new_acc : Value → ToolCallAcc
new_acc payload = record {
  block_index = index_of payload;
  id = unwrap_or (str_at (codes "content_block") (codes "id") payload) [];
  name = unwrap_or (str_at (codes "content_block") (codes "name") payload) [];
  arguments = [];
}

-- "content_block_start".
unfoldable pub content_block_start : ClaudeState → Value → ClaudeState × Converted
content_block_start s payload =
    if is_tool_use (str_at (codes "content_block") (codes "type") payload)
    then (record s { tools = s.tools ++ new_acc payload ∷ [] }, ignore)
    else (s, ignore)

abbrev pub emit_call :
    ClaudeState → ℤ → Option (ToolCallAcc × List ToolCallAcc) → ClaudeState × Converted
emit_call s now none = (s, ignore)
emit_call s now (some (acc, rest)) = (
  record s { tools = rest; next_tool_index = s.next_tool_index + 1 },
  emit (tool_call_chunk s now s.next_tool_index acc),
)

-- "content_block_stop".
unfoldable pub content_block_stop : ClaudeState → Value → ℤ → ClaudeState × Converted
content_block_stop s payload now = emit_call s now (take_acc (index_of payload) s.tools)

pub data DeltaKind : Type 0 where
  text_delta thinking_delta input_json_delta other_delta : DeltaKind

abbrev pub delta_kind : Text → DeltaKind
delta_kind kind =
    if text_eq kind (codes "text_delta")
    then text_delta
    else if text_eq kind (codes "thinking_delta")
    then thinking_delta
    else if text_eq kind (codes "input_json_delta")
    then input_json_delta
    else other_delta

-- A text that is sent on unless it is empty.
abbrev pub emit_text : ClaudeState → Text → Value → ClaudeState × Converted
emit_text s text value = if is_empty text then (s, ignore) else (s, emit value)

abbrev pub push_json : ClaudeState → Option ℤ → Text → ClaudeState × Converted
push_json s index fragment =
    if is_empty fragment
    then (s, ignore)
    else (record s { tools = push_fragment index fragment s.tools }, ignore)

abbrev pub delta_text : Text → Value → Text
delta_text key payload = unwrap_or (str_at (codes "delta") key payload) []

abbrev pub on_delta : DeltaKind → ClaudeState → Value → ℤ → ClaudeState × Converted
on_delta text_delta s payload now =
    let text = delta_text (codes "text") payload in
    emit_text s text (delta_chunk s now (some text) none)
on_delta thinking_delta s payload now =
    let text = delta_text (codes "thinking") payload in
    emit_text s text (delta_chunk s now none (some text))
on_delta input_json_delta s payload now =
    push_json s (and_then (get (codes "index") payload) as_i64)
      (delta_text (codes "partial_json") payload)
on_delta other_delta s payload now = (s, ignore)

-- "content_block_delta".
unfoldable pub content_block_delta : ClaudeState → Value → ℤ → ClaudeState × Converted
content_block_delta s payload now =
    on_delta (delta_kind (delta_text (codes "type") payload)) s payload now

unfoldable pub convert_stop_reason : Text → Text
convert_stop_reason reason =
    if text_eq reason (codes "end_turn")
    then codes "stop"
    else if text_eq reason (codes "stop_sequence")
    then codes "stop"
    else if text_eq reason (codes "max_tokens")
    then codes "length"
    else if text_eq reason (codes "tool_use")
    then codes "tool_calls"
    else codes "stop"

abbrev pub emit_finish : ℤ → ClaudeState → ClaudeState × Converted
emit_finish now s = (s, emit (finish_chunk s now))

abbrev pub on_stop_reason : ClaudeState → ℤ → Option Text → ClaudeState × Converted
on_stop_reason s now none = (s, ignore)
on_stop_reason s now (some reason) =
    emit_finish now
      (record s { finish_reason = some (convert_stop_reason reason); finish_sent = true })

abbrev pub merge_some : ClaudeState → Option Value → ClaudeState
merge_some s none = s
merge_some s (some usage) = record s { usage = merge_usage s.usage usage }

-- "message_delta".
unfoldable pub message_delta : ClaudeState → Value → ℤ → ClaudeState × Converted
message_delta s payload now =
    on_stop_reason (merge_some s (get (codes "usage") payload)) now
      (str_at (codes "delta") (codes "stop_reason") payload)

-- "message_stop".
unfoldable pub message_stop : ClaudeState → ℤ → ClaudeState × Converted
message_stop s now =
    if s.finish_sent then (s, ignore) else emit_finish now (record s { finish_sent = true })

pub data EventKind : Type 0 where
  at_message_start at_block_start at_block_stop at_block_delta at_message_delta at_message_stop :
      EventKind
  at_other : EventKind

-- The arms of the match on the event's type.
unfoldable pub event_kind : Text → EventKind
event_kind ty =
    if text_eq ty (codes "message_start")
    then at_message_start
    else if text_eq ty (codes "content_block_start")
    then at_block_start
    else if text_eq ty (codes "content_block_stop")
    then at_block_stop
    else if text_eq ty (codes "content_block_delta")
    then at_block_delta
    else if text_eq ty (codes "message_delta")
    then at_message_delta
    else if text_eq ty (codes "message_stop")
    then at_message_stop
    else at_other

abbrev pub on_event : EventKind → ClaudeState → Value → ℤ → ClaudeState × Converted
on_event at_message_start s payload now = message_start s payload now
on_event at_block_start s payload now = content_block_start s payload
on_event at_block_stop s payload now = content_block_stop s payload now
on_event at_block_delta s payload now = content_block_delta s payload now
on_event at_message_delta s payload now = message_delta s payload now
on_event at_message_stop s payload now = message_stop s now
on_event at_other s payload now = (s, ignore)

unfoldable pub convert_event : ClaudeState → Text → Value → ℤ → ClaudeState × Converted
convert_event s event_type payload now = on_event (event_kind event_type) s payload now
