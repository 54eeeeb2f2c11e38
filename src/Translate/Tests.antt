-- ===== src/Translate/Tests.antt =====
-- Runs of the stream adapters.
use heterion_router.Prelude.{ℕ, length, some, List, [], ◌∷◌, Text, codes, text_eq, ◌≡◌, refl}
use heterion_router.Json.{Value, string, object, fields, get_field, items, insert_field}
use heterion_router.Translate.Int.{pos, int_eq}
use heterion_router.Translate.Chunk.{json_nat, chunk, stream_chunk, insert_text, attach_usage}
use heterion_router.Translate.Reader.{finish_reason_of, call_index, reasons, indexes, count_from}
use heterion_router.Translate.Claude.{new, role_chunk, delta_chunk, tool_call_chunk, finish_chunk}
use heterion_router.Translate.Claude.Tools.{take_acc, push_at}
use heterion_router.Translate.Claude.Events.{
  event_kind, message_start, content_block_start, content_block_stop, content_block_delta,
  message_delta, message_stop, convert_event, convert_stop_reason,
}
use heterion_router.Translate.Claude.Stream.{Incoming, translate, final, outputs}
use heterion_router.Translate.Claude.Fragments.{all_leave_open, fragments}
use heterion_router.Translate.Claude.Calls.{SendsWhole, content_block_stop-whole}
use heterion_router.Translate.Claude.Numbering.{outputs-indexes}
use heterion_router.Translate.Claude.Finish.{outputs-reasons}

abbrev obj : List (Text × Value) → Value
obj kvs = object (fields kvs)

abbrev incoming : Text → List (Text × Value) → Incoming
incoming ty kvs = record { event = some ty; payload = obj kvs; now = pos 1700 }

abbrev hello : Incoming
hello =
    incoming (codes "message_start")
      ((codes "message", obj ((codes "id", string (codes "m1")) ∷ [])) ∷ [])

abbrev start_tool : ℕ → Incoming
start_tool i = incoming (codes "content_block_start") (
    (codes "index", json_nat i)
    ∷ (
      codes "content_block",
      obj (
          (codes "type", string (codes "tool_use"))
          ∷ (codes "id", string (codes "t1"))
          ∷ (codes "name", string (codes "find"))
          ∷ []),
    )
    ∷ [])

abbrev json_part : ℕ → Text → Incoming
json_part i part = incoming (codes "content_block_delta") (
    (codes "index", json_nat i)
    ∷ (
      codes "delta",
      obj (
          (codes "type", string (codes "input_json_delta"))
          ∷ (codes "partial_json", string part)
          ∷ []),
    )
    ∷ [])

abbrev stop_tool : ℕ → Incoming
stop_tool i = incoming (codes "content_block_stop") ((codes "index", json_nat i) ∷ [])

abbrev text_event : Incoming
text_event = incoming (codes "content_block_delta") (
    (codes "index", json_nat 0)
    ∷ (
      codes "delta",
      obj ((codes "type", string (codes "text_delta")) ∷ (codes "text", string (codes "hi")) ∷ []),
    )
    ∷ [])

abbrev reason_event : Text → Incoming
reason_event reason =
    incoming (codes "message_delta")
      ((codes "delta", obj ((codes "stop_reason", string reason) ∷ [])) ∷ [])

abbrev bye : Incoming
bye = incoming (codes "message_stop") []

-- Two calls, their fragments mixed.
abbrev two_calls : List Incoming
two_calls =
    hello
    ∷ text_event
    ∷ start_tool 1
    ∷ start_tool 2
    ∷ json_part 1 (codes "{")
    ∷ json_part 2 (codes "[")
    ∷ json_part 1 (codes "}")
    ∷ stop_tool 2
    ∷ stop_tool 1
    ∷ reason_event (codes "tool_use")
    ∷ bye
    ∷ []

test_indexes : indexes (outputs new two_calls) ≡ 0 ∷ 1 ∷ []
unfolding convert_event event_kind indexes reasons outputs text_eq get_field message_start
    call_index finish_reason_of role_chunk stream_chunk chunk items content_block_delta delta_chunk
    insert_text insert_field content_block_start content_block_stop fields attach_usage
    convert_stop_reason message_delta message_stop push_at take_acc finish_chunk tool_call_chunk
    int_eq
test_indexes = refl

test_reasons : reasons (outputs new two_calls) ≡ codes "tool_calls" ∷ []
unfolding convert_event event_kind indexes reasons outputs text_eq get_field message_start
    call_index finish_reason_of role_chunk stream_chunk chunk items content_block_delta delta_chunk
    insert_text insert_field content_block_start content_block_stop fields attach_usage
    convert_stop_reason message_delta message_stop push_at take_acc finish_chunk tool_call_chunk
    int_eq
test_reasons = refl

-- A second stop reason makes a second finish chunk.
test_second_finish :
    reasons (outputs new (reason_event (codes "end_turn") ∷ reason_event (codes "max_tokens") ∷ []))
    ≡ codes "stop" ∷ codes "length" ∷ []
unfolding convert_event event_kind indexes reasons outputs text_eq get_field message_start
    call_index finish_reason_of role_chunk stream_chunk chunk items content_block_delta delta_chunk
    insert_text insert_field content_block_start content_block_stop fields attach_usage
    convert_stop_reason message_delta message_stop push_at take_acc finish_chunk tool_call_chunk
    int_eq
test_second_finish = refl

test_fragments : fragments (pos 1) two_calls ≡ codes "{}"
unfolding fragments event_kind text_eq fields get_field int_eq
test_fragments = refl

-- The block 1, while block 2 starts, grows and stops.
content_block_stop-whole_example :
    SendsWhole
      (final (translate new (start_tool 1)).0 (
        json_part 1 (codes "{")
        ∷ start_tool 2
        ∷ json_part 2 (codes "[")
        ∷ stop_tool 2
        ∷ json_part 1 (codes "}")
        ∷ []))
      (start_tool 1)
      (stop_tool 1)
      (codes "{}")
unfolding fragments event_kind all_leave_open fields get_field int_eq text_eq take_acc
content_block_stop-whole_example =
    content_block_stop-whole new (start_tool 1) (stop_tool 1)
      (json_part 1 (codes "{")
        ∷ start_tool 2
        ∷ json_part 2 (codes "[")
        ∷ stop_tool 2
        ∷ json_part 1 (codes "}")
        ∷ [])
      refl refl refl refl refl refl

outputs-indexes_example :
    indexes (outputs new two_calls) ≡ count_from 0 (length (indexes (outputs new two_calls)))
outputs-indexes_example = outputs-indexes new two_calls

outputs-reasons_example :
    reasons (outputs new (hello ∷ text_event ∷ reason_event (codes "max_tokens") ∷ bye ∷ []))
    ≡ codes "length" ∷ []
unfolding event_kind fields get_field text_eq convert_stop_reason
outputs-reasons_example =
    outputs-reasons (hello ∷ text_event ∷ []) (reason_event (codes "max_tokens")) (bye ∷ [])
      (codes "length") (refl, (refl, tt)) refl (refl, tt)
