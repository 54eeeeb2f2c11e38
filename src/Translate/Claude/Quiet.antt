-- ===== src/Translate/Claude/Quiet.antt =====
-- The events of Claude that say nothing of the end of the stream.
use heterion_router.Prelude.{
  Bool, true, false, Option, none, some, List, [], ◌∷◌, Text, codes, is_empty, if◌then◌else◌, ◌≡◌,
  refl, ◌⊎◌, inl, inr,
}
use heterion_router.Json.{Value, get}
use heterion_router.Translate.Int.{ℤ}
use heterion_router.Translate.Reader.{finish_reason_of, reasons}
use heterion_router.Translate.Claude.{ToolCallAcc, ClaudeState, Converted, emit, ignore}
use heterion_router.Translate.Claude.Tools.{take_acc}
use heterion_router.Translate.Claude.Events.{
  EventKind, DeltaKind, text_delta, thinking_delta, input_json_delta, other_delta, at_message_start,
  at_block_start, at_block_stop, at_block_delta, at_message_delta, at_message_stop, at_other,
  started, emit_finish, str_at, is_tool_use, index_of, delta_kind, delta_text, on_delta, on_event,
  event_kind, message_start, content_block_start, content_block_stop, content_block_delta,
  message_delta, message_stop, on_stop_reason, merge_some, emit_call, convert_stop_reason,
}
use heterion_router.Translate.Claude.Stream.{Incoming, event_type, emitted}
use heterion_router.Translate.Claude.Chunks.{
  finish_reason_of-role, finish_reason_of-delta, finish_reason_of-call,
}

-- The reason that a `message_delta` gives, if it does.
abbrev pub given : EventKind → Value → Option Text
given at_message_delta payload = str_at (codes "delta") (codes "stop_reason") payload
given at_message_start payload = none
given at_block_start payload = none
given at_block_stop payload = none
given at_block_delta payload = none
given at_message_stop payload = none
given at_other payload = none

abbrev pub converted : Option Text → Option Text
converted none = none
converted (some reason) = some (convert_stop_reason reason)

-- The finish reason that an event asks for.
abbrev pub closing : EventKind → Value → Option Text
closing at_message_stop payload = some (codes "stop")
closing at_message_delta payload = converted (given at_message_delta payload)
closing at_message_start payload = none
closing at_block_start payload = none
closing at_block_stop payload = none
closing at_block_delta payload = none
closing at_other payload = none

abbrev pub stop_reason_of : Incoming → Option Text
stop_reason_of e = given (event_kind (event_type e)) e.payload

abbrev pub closing_reason_of : Incoming → Option Text
closing_reason_of e = closing (event_kind (event_type e)) e.payload

-- No event of the list closes the stream.
abbrev pub NoClosing : List Incoming → Type 0
NoClosing [] = Unit {0}
NoClosing (e ∷ es) = (closing_reason_of e ≡ none) × NoClosing es

-- No event of the list gives a stop reason.
abbrev pub NoReason : List Incoming → Type 0
NoReason [] = Unit {0}
NoReason (e ∷ es) = (stop_reason_of e ≡ none) × NoReason es

-- Nothing read in the answer ends the stream, and the marks of the end are as before.
abbrev pub Quiet : Bool → Option Text → ClaudeState × Converted → Type 0
Quiet sent reason (s, c) =
    (reasons (emitted c []) ≡ []) × (s.finish_sent ≡ sent) × (s.finish_reason ≡ reason)

module _ (sent : Bool) (reason : Option Text) where
  pub if_Quiet :
      (b : Bool) (x y : ClaudeState × Converted)
      → Quiet sent reason x
      → Quiet sent reason y
      → Quiet sent reason (if b then x else y)
  if_Quiet true x y hx hy = hx
  if_Quiet false x y hx hy = hy

  module _ (s : ClaudeState) (h : s.finish_sent ≡ sent) (r : s.finish_reason ≡ reason) where
    pub ignored : Quiet sent reason (s, ignore)
    unfolding reasons
    ignored = (refl, h, r)

    pub sent_on : (v : Value) → finish_reason_of v ≡ none → Quiet sent reason (s, emit v)
    unfolding reasons
    sent_on v e = (rw e refl, h, r)

    pub call_Quiet :
        (now : ℤ) (o : Option (ToolCallAcc × List ToolCallAcc))
        → Quiet sent reason (emit_call s now o)
    unfolding reasons
    call_Quiet now none = (refl, h, r)
    call_Quiet now (some (acc, rest)) =
        (rw (finish_reason_of-call s now s.next_tool_index acc) refl, h, r)

    pub delta_Quiet :
        (k : DeltaKind) (payload : Value) (now : ℤ) → Quiet sent reason (on_delta k s payload now)
    unfolding reasons
    delta_Quiet text_delta payload now =
        if_Quiet (is_empty (delta_text (codes "text") payload)) _ _ ignored
          (sent_on _ (finish_reason_of-delta s now (some (delta_text (codes "text") payload)) none))
    delta_Quiet thinking_delta payload now =
        if_Quiet (is_empty (delta_text (codes "thinking") payload)) _ _ ignored (
          sent_on _
            (finish_reason_of-delta s now none (some (delta_text (codes "thinking") payload))))
    delta_Quiet input_json_delta payload now =
        if_Quiet (is_empty (delta_text (codes "partial_json") payload)) _ _ ignored (refl, h, r)
    delta_Quiet other_delta payload now = ignored

    pub merge_Quiet : (usage : Option Value) → Quiet sent reason (merge_some s usage, ignore)
    unfolding reasons
    merge_Quiet none = (refl, h, r)
    merge_Quiet (some usage) = (refl, h, r)

    pub reason_Quiet :
        (now : ℤ) (usage : Option Value) (o : Option Text)
        → o ≡ none
        → Quiet sent reason (on_stop_reason (merge_some s usage) now o)
    reason_Quiet now usage none e = merge_Quiet usage
    reason_Quiet now usage (some o) e = cc e

    pub stop_Quiet :
        (now : ℤ) (b : Bool)
        → s.finish_sent ≡ b
        → sent ≡ true
        → Quiet sent reason
            (if b then (s, ignore) else emit_finish now (record s { finish_sent = true }))
    stop_Quiet now true e t = ignored
    stop_Quiet now false e t = cc (h, e, t)

    -- An event without a stop reason is quiet, but for the `message_stop` of an open stream.
    pub event_Quiet :
        (k : EventKind) (payload : Value) (now : ℤ)
        → given k payload ≡ none
        → (sent ≡ true) ⊎ (closing k payload ≡ none)
        → Quiet sent reason (on_event k s payload now)
    unfolding message_start content_block_start content_block_stop content_block_delta message_delta
        message_stop reasons
    event_Quiet at_message_start payload now n c =
        (rw (finish_reason_of-role (started s payload now) now) refl, h, r)
    event_Quiet at_block_start payload now n c =
        if_Quiet (is_tool_use (str_at (codes "content_block") (codes "type") payload)) _ _
          (refl, h, r) ignored
    event_Quiet at_block_stop payload now n c = call_Quiet now (take_acc (index_of payload) s.tools)
    event_Quiet at_block_delta payload now n c =
        delta_Quiet (delta_kind (delta_text (codes "type") payload)) payload now
    event_Quiet at_message_delta payload now n c =
        reason_Quiet now (get (codes "usage") payload)
          (str_at (codes "delta") (codes "stop_reason") payload) n
    event_Quiet at_message_stop payload now n (inl e) = stop_Quiet now s.finish_sent refl e
    event_Quiet at_message_stop payload now n (inr e) = cc e
    event_Quiet at_other payload now n c = ignored
