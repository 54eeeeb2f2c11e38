-- ===== src/Translate/Responses/Tests.antt =====
-- Runs of the Responses API adapter.
use heterion_router.Prelude.{
  false, none, some, List, [], ◌∷◌, Text, codes, text_eq, length, ◌≡◌, refl, lookup, insert,
}
use heterion_router.Prelude.Whitespace.{trim, trim_start, is_whitespace}
use heterion_router.Json.{Value, Fields, string, object, fields, get_field, items, insert_field}
use heterion_router.Translate.Int.{pos}
use heterion_router.Translate.Chunk.{announce_role, chunk, stream_chunk, insert_text, attach_usage}
use heterion_router.Translate.Reader.{finish_reason_of, reasons, call_index, indexes, call_name}
use heterion_router.Translate.Responses.{
  ResponsesState, new, ignore, delta_chunk, tool_chunk, compute_finish_reason, finish_chunk,
  extract_usage,
}
use heterion_router.Translate.Responses.Calls.{
  closing, remove_call, output_item_added, arguments_delta, output_item_done,
}
use heterion_router.Translate.Responses.Events.{event_kind, convert_event, handle_event}
use heterion_router.Translate.Responses.Quiet.{Incoming, outputs, ends_well}
use heterion_router.Translate.Responses.Finish.{outputs-finish_once}
use heterion_router.Translate.Responses.Nameless.{output_item_done-nameless}

abbrev obj : List (Text × Value) → Value
obj kvs = object (fields kvs)

abbrev fresh_state : ResponsesState
fresh_state = new (codes "chatcmpl-1") (pos 1) (codes "m")

abbrev item : Text → Value
item name = obj (
    (codes "type", string (codes "function_call"))
    ∷ (codes "call_id", string (codes "c1"))
    ∷ (codes "name", string name)
    ∷ [])

abbrev item_event : Text → Value
item_event name = obj ((codes "item", item name) ∷ [])

abbrev fragment : Text → Value
fragment text = obj ((codes "delta", string text) ∷ [])

abbrev run : List Incoming
run =
    (some (codes "response.output_text.delta"), fragment (codes "hi"))
    ∷ (some (codes "response.output_item.added"), item_event (codes "find"))
    ∷ (some (codes "response.function_call_arguments.delta"), fragment (codes "{}"))
    ∷ (some (codes "response.output_item.done"), item_event (codes "find"))
    ∷ (some (codes "response.completed"), obj [])
    ∷ (some (codes "response.completed"), obj [])
    ∷ []

test_reasons : reasons (outputs fresh_state run) ≡ codes "tool_calls" ∷ []
unfolding outputs handle_event convert_event event_kind text_eq fields get_field items insert_field
    announce_role chunk stream_chunk insert_text attach_usage finish_reason_of reasons delta_chunk
    tool_chunk compute_finish_reason finish_chunk extract_usage remove_call output_item_added
    arguments_delta output_item_done lookup insert trim trim_start is_whitespace
test_reasons = refl

test_indexes : indexes (outputs fresh_state run) ≡ 0 ∷ 0 ∷ []
unfolding outputs handle_event convert_event event_kind text_eq fields get_field items insert_field
    announce_role chunk stream_chunk insert_text attach_usage call_index indexes delta_chunk
    tool_chunk compute_finish_reason finish_chunk extract_usage remove_call output_item_added
    arguments_delta output_item_done lookup insert trim trim_start is_whitespace
test_indexes = refl

outputs-finish_once_example : length (reasons (outputs fresh_state run)) ≡ 1
unfolding ends_well event_kind text_eq
outputs-finish_once_example = outputs-finish_once fresh_state run

-- The call is added without a name and ends as `find`.
output_item_done-nameless_example :
    ((output_item_added fresh_state (item_event [])).1 ≡ ignore)
    × (call_name (
          stream_chunk (codes "chatcmpl-1") (pos 1) (codes "m") (
            object (
              insert_field (codes "tool_calls") (closing 0 []) (announce_role Fields.end false).0)))
        ≡ none)
unfolding output_item_added output_item_done text_eq fields get_field lookup insert trim trim_start
    is_whitespace tool_chunk remove_call
output_item_done-nameless_example =
    output_item_done-nameless fresh_state (output_item_added fresh_state (item_event [])).0
      (item_event []) (item []) (item_event (codes "find"))
      (stream_chunk (codes "chatcmpl-1") (pos 1) (codes "m") (
        object
          (insert_field (codes "tool_calls") (closing 0 []) (announce_role Fields.end false).0)))
      refl refl refl
