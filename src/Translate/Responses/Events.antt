-- ===== src/Translate/Responses/Events.antt =====
-- The Responses API stream adapter: `convert_event` in
-- crates/heterion-router-translate/src/responses.rs, and the event handler that feeds it in
-- crates/heterion-router-gateway/src/responses.rs.
use heterion_router.Prelude.{
  true, Option, none, some, List, [], ◌∷◌, Text, codes, text_eq, is_empty, if◌then◌else◌,
}
use heterion_router.Json.{Value, get, as_str, and_then, unwrap_or}
use heterion_router.Translate.Responses.{
  ResponsesState, TranslatedUsage, Converted, emit, ignore, fail, delta_chunk,
  compute_finish_reason, finish_chunk, extract_usage, or_text, error_message,
}
use heterion_router.Translate.Responses.Calls.{
  text_at, output_item_added, arguments_delta, output_item_done,
}

pub data EventKind : Type 0 where
  at_text at_reasoning at_added at_arguments at_done at_completed at_incomplete at_failed :
      EventKind
  at_other : EventKind

-- The arms of the match on the event's type.
unfoldable pub event_kind : Text → EventKind
event_kind ty =
    if text_eq ty (codes "response.output_text.delta")
    then at_text
    else if text_eq ty (codes "response.reasoning_summary_text.delta")
    then at_reasoning
    else if text_eq ty (codes "response.reasoning_content_text.delta")
    then at_reasoning
    else if text_eq ty (codes "response.reasoning_text.delta")
    then at_reasoning
    else if text_eq ty (codes "response.output_item.added")
    then at_added
    else if text_eq ty (codes "response.function_call_arguments.delta")
    then at_arguments
    else if text_eq ty (codes "response.output_item.done")
    then at_done
    else if text_eq ty (codes "response.completed")
    then at_completed
    else if text_eq ty (codes "response.incomplete")
    then at_incomplete
    else if text_eq ty (codes "response.failed")
    then at_failed
    else if text_eq ty (codes "error")
    then at_failed
    else at_other

abbrev pub emit_text :
    ResponsesState → Text → ResponsesState × Converted → ResponsesState × Converted
emit_text s text sent = if is_empty text then (s, ignore) else sent

-- The finish chunk, unless one went out.
abbrev pub finish : ResponsesState → Text → Option TranslatedUsage → ResponsesState × Converted
finish s reason usage =
    if s.finish_sent
    then (s, ignore)
    else (record s { finish_sent = true }, emit (finish_chunk s reason usage))

abbrev pub on_event : EventKind → ResponsesState → Value → ResponsesState × Converted
on_event at_text s payload =
    let text = text_at (codes "delta") payload in emit_text s text (delta_chunk s (some text) none)
on_event at_reasoning s payload =
    let text = text_at (codes "delta") payload in emit_text s text (delta_chunk s none (some text))
on_event at_added s payload = output_item_added s payload
on_event at_arguments s payload = arguments_delta s payload
on_event at_done s payload = output_item_done s payload
on_event at_completed s payload = finish s (compute_finish_reason s) (extract_usage payload)
on_event at_incomplete s payload = finish s (codes "length") (extract_usage payload)
on_event at_failed s payload = (record s { finish_sent = true }, fail (error_message payload))
on_event at_other s payload = (s, ignore)

unfoldable pub convert_event : ResponsesState → Text → Value → ResponsesState × Converted
convert_event s event_type payload = on_event (event_kind event_type) s payload

-- The name of the SSE event, or else the payload's `type`.
abbrev pub event_type : Option Text → Value → Text
event_type event payload =
    unwrap_or (or_text event (and_then (get (codes "type") payload) as_str)) []

pub data Handled : Type 0 where
  sent : List Value → Handled
  upstream_failed : Text → Handled

abbrev pub handled : Converted → Handled
handled (emit v) = sent (v ∷ [])
handled ignore = sent []
handled (fail message) = upstream_failed message

-- The closure of `responses_event_handler`.
unfoldable pub handle_event : ResponsesState → Option Text → Value → ResponsesState × Handled
handle_event s event payload =
    let r = convert_event s (event_type event payload) payload in (r.0, handled r.1)
