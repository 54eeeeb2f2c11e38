-- ===== src/Pump/Tests.antt =====
-- Runs of the pump, with the Claude adapter as its handler.
use heterion_router.Prelude.{
  ℕ, true, false, ◌⊎◌, Option, none, some, List, [], ◌∷◌, ◌++◌, Text, codes, text_eq, starts_with,
  strip_prefix, ◌≡◌, refl,
}
use heterion_router.Json.{Value, Fields, string, object, fields, get_field, items, insert_field}
use heterion_router.Sse.{
  SseEvent, push_bytes, finish, max_sse_event_bytes, buffered, drain, next_line, take_line,
  parse_frame, parse_lines, parse_line,
}
use heterion_router.Prelude.Whitespace.{
  trim, trim_start, is_whitespace, utf8_len, join, lines, split_whitespace,
}
use heterion_router.Translate.Chunk.{
  json_nat, attach_usage, stream_chunk, chunk, chatcmpl_id, chunk_model,
}
use heterion_router.Translate.Claude.{role_chunk, finish_chunk}
use heterion_router.Translate.Claude.Events.{convert_event, event_kind, message_start, message_stop}
use heterion_router.Pump.Contract.{IsFull, normalize_call-IsFull}
use heterion_router.Pump.Normalize.{normalize_tool_call_deltas, normalize_call, each}
use heterion_router.Pump.{take_events, emit_chunks, end_on_done, openai_chunk_to_stream_chunk}
use heterion_router.Translate.Int.{pos}
use heterion_router.Translate.Claude.{ClaudeState, Converted, emit, ignore}
use heterion_router.Translate.Claude.Stream.{translate}
use heterion_router.Pump.{
  fails, completed, failed, unterminated, Arrival, bytes, Answer, chunks, PumpState, pump,
}
use heterion_router.Pump.Terminal.{finished_in, pump-completed}

abbrev as_it_is : List ℕ → Text
as_it_is text = text

abbrev typed : Text → Value
typed ty = object (fields ((codes "type", string ty) ∷ []))

-- A payload that is the type of its event.
abbrev from_str : Text → Option Value
from_str text = some (typed text)

abbrev no_detail : Value → Option Value
no_detail value = none

abbrev answer : ClaudeState × Converted → ClaudeState × Answer
answer (s, emit v) = (s, chunks (v ∷ []))
answer (s, ignore) = (s, chunks [])

abbrev handler : ClaudeState → SseEvent → Value → ClaudeState × Answer
handler s event payload =
    answer (translate s (record { event = event.event; payload = payload; now = pos 1 }))

abbrev start : PumpState ClaudeState
start = record {
  decoder = heterion_router.Sse.new;
  finish_seen = false;
  tool_call_ids = [];
  translator = heterion_router.Translate.Claude.new;
  got = [];
  room = 8;
}

abbrev frame : Text → Text
frame text = codes "data: " ++ text ++ 10 ∷ 10 ∷ []

abbrev body : List Arrival
body = bytes (frame (codes "message_start")) ∷ bytes (frame (codes "message_stop")) ∷ []

test_completed : (pump as_it_is from_str no_detail handler fails body start).1 ≡ completed
unfolding pump take_events emit_chunks end_on_done openai_chunk_to_stream_chunk push_bytes finish
    max_sse_event_bytes buffered drain next_line utf8_len take_line parse_frame parse_lines
    parse_line text_eq trim trim_start is_whitespace convert_event event_kind message_start
    message_stop role_chunk finish_chunk attach_usage stream_chunk chunk chatcmpl_id chunk_model
    fields get_field insert_field items normalize_tool_call_deltas each starts_with strip_prefix
    join lines split_whitespace
test_completed = refl

test_finished : finished_in (pump as_it_is from_str no_detail handler fails body start).0.got ≡ true
unfolding pump take_events emit_chunks end_on_done openai_chunk_to_stream_chunk push_bytes finish
    max_sse_event_bytes buffered drain next_line utf8_len take_line parse_frame parse_lines
    parse_line text_eq trim trim_start is_whitespace convert_event event_kind message_start
    message_stop role_chunk finish_chunk attach_usage stream_chunk chunk chatcmpl_id chunk_model
    fields get_field insert_field items normalize_tool_call_deltas each starts_with strip_prefix
    join lines split_whitespace finished_in
test_finished = refl

test_unterminated :
    (pump as_it_is from_str no_detail handler fails
      (bytes (frame (codes "message_start")) ∷ [])
      start).1
    ≡ failed unterminated
unfolding pump take_events emit_chunks end_on_done openai_chunk_to_stream_chunk push_bytes finish
    max_sse_event_bytes buffered drain next_line utf8_len take_line parse_frame parse_lines
    parse_line text_eq trim trim_start is_whitespace convert_event event_kind message_start
    message_stop role_chunk finish_chunk attach_usage stream_chunk chunk chatcmpl_id chunk_model
    fields get_field insert_field items normalize_tool_call_deltas each starts_with strip_prefix
    join lines split_whitespace
test_unterminated = refl

pump-completed_example :
    (finished_in (pump as_it_is from_str no_detail handler fails body start).0.got ≡ true)
    ⊎ ((pump as_it_is from_str no_detail handler fails body start).0.room ≡ 0)
unfolding finished_in
pump-completed_example =
    pump-completed as_it_is from_str no_detail handler fails body start refl test_completed

-- A fragment that says its index and its arguments only.
abbrev fragment : Fields
fragment = fields (
    (codes "index", json_nat 0)
    ∷ (codes "function", object (fields ((codes "arguments", string (codes "{")) ∷ [])))
    ∷ [])

normalize_call-IsFull_example : IsFull (normalize_call [] 0 fragment).1
unfolding fields get_field text_eq
normalize_call-IsFull_example =
    normalize_call-IsFull [] 0 fragment
      (fields ((codes "arguments", string (codes "{")) ∷ []), refl)
