-- ===== src/Translate/Gemini/Tests.antt =====
-- Runs of the Gemini adapter.
use heterion_router.Prelude.{
  ◌+◌, ◌^◌, ◌<◌, List, [], ◌∷◌, Text, codes, text_eq, length, ◌≡◌, refl, arith,
}
use heterion_router.Json.{
  Value, Items, string, array, object, fields, get_field, items, insert_field,
}
use heterion_router.Translate.Int.{pos}
use heterion_router.Translate.Chunk.{announce_role, chunk, stream_chunk, insert_text, attach_usage}
use heterion_router.Translate.Reader.{finish_reason_of, call_index, reasons, indexes, count_from}
use heterion_router.Translate.Gemini.{
  new, role_chunk, delta_chunk, tool_chunk, finish_chunk, capture_usage,
}
use heterion_router.Translate.Gemini.Events.{
  thought_signature, normalize_finish_reason, tool_call, convert_parts, convert_event,
}
use heterion_router.Translate.Gemini.Finish.{Payloads, any_asks, outputs, outputs-one_finish}
use heterion_router.Translate.Gemini.Numbering.{outputs-numbered}

abbrev obj : List (Text × Value) → Value
obj kvs = object (fields kvs)

abbrev items_of : List Value → Items
items_of [] = Items.nil
items_of (v ∷ vs) = Items.cons v (items_of vs)

abbrev arr : List Value → Value
arr vs = array (items_of vs)

abbrev call : Text → Value
call name = obj ((codes "functionCall", obj ((codes "name", string name) ∷ [])) ∷ [])

abbrev said : Value
said = obj ((codes "text", string (codes "hi")) ∷ [])

abbrev payload_of : List Value → List (Text × Value) → Value
payload_of parts more = obj (
    (
      codes "candidates",
      arr (obj ((codes "content", obj ((codes "parts", arr parts) ∷ [])) ∷ more) ∷ []),
    )
    ∷ [])

abbrev as_it_is : Value → Text
as_it_is v = codes "{}"

abbrev same_case : Text → Text
same_case t = t

-- Two payloads with a call each, and the end twice.
abbrev run : Payloads
run =
    (payload_of (said ∷ call (codes "find") ∷ []) [], pos 1)
    ∷ (
      payload_of (call (codes "read") ∷ []) ((codes "finishReason", string (codes "stop")) ∷ []),
      pos 2,
    )
    ∷ (payload_of [] ((codes "finishReason", string (codes "stop")) ∷ []), pos 3)
    ∷ []

test_indexes : indexes (outputs as_it_is same_case new run) ≡ 0 ∷ 1 ∷ []
unfolding outputs convert_event text_eq fields get_field items insert_field announce_role chunk
    stream_chunk insert_text attach_usage call_index indexes role_chunk delta_chunk tool_chunk
    finish_chunk capture_usage thought_signature normalize_finish_reason tool_call convert_parts
test_indexes = refl

test_reasons : reasons (outputs as_it_is same_case new run) ≡ codes "tool_calls" ∷ []
unfolding outputs convert_event text_eq fields get_field items insert_field announce_role chunk
    stream_chunk insert_text attach_usage finish_reason_of reasons role_chunk delta_chunk tool_chunk
    finish_chunk capture_usage thought_signature normalize_finish_reason tool_call convert_parts
test_reasons = refl

two_calls_fit : 0 + length (indexes (outputs as_it_is same_case new run)) < 2 ^ 32
two_calls_fit = let e = test_indexes in rw e (omega arith)

outputs-one_finish_example : length (reasons (outputs as_it_is same_case new run)) ≡ 1
unfolding any_asks text_eq fields get_field items
outputs-one_finish_example = outputs-one_finish as_it_is same_case new run

outputs-numbered_example :
    indexes (outputs as_it_is same_case new run)
    ≡ count_from 0 (length (indexes (outputs as_it_is same_case new run)))
outputs-numbered_example = outputs-numbered as_it_is same_case new run two_calls_fit
