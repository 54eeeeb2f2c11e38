-- ===== src/Translate/Claude/Numbering.antt =====
-- The indexes of the tool calls that a stream of the Claude adapter carries.
use heterion_router.Prelude.{
  ℕ, ◌+◌, Bool, true, false, Option, none, some, List, [], ◌∷◌, Text, codes, is_empty, length,
  if◌then◌else◌, ◌≡◌, refl, ap, ◌⊎◌, inl, inr,
}
use mathlib.Core.Path.{subst}
use heterion_router.Json.{Value, get}
use heterion_router.Translate.Int.{ℤ}
use heterion_router.Translate.Reader.{call_index, indexes, count_from}
use heterion_router.Translate.Claude.{ToolCallAcc, ClaudeState, Converted, emit, ignore}
use heterion_router.Translate.Claude.Tools.{take_acc}
use heterion_router.Translate.Claude.Events.{
  EventKind, DeltaKind, text_delta, thinking_delta, input_json_delta, other_delta, at_message_start,
  at_block_start, at_block_stop, at_block_delta, at_message_delta, at_message_stop, at_other,
  str_at, is_tool_use, index_of, delta_kind, delta_text, on_delta, on_event, event_kind,
  message_start, content_block_start, content_block_stop, content_block_delta, message_delta,
  message_stop, on_stop_reason, merge_some, emit_call, convert_event,
}
use heterion_router.Translate.Claude.Stream.{Incoming, event_type, translate, outputs, emitted}
use heterion_router.Translate.Claude.Chunks.{
  call_index-role, call_index-text, call_index-thinking, call_index-call, call_index-finish,
}

-- No call is sent and the counter stays, or the call with the counter's number is sent.
abbrev Numbered : ℕ → ClaudeState × Converted → Type 0
Numbered n (s, ignore) = s.next_tool_index ≡ n
Numbered n (s, emit v) =
    ((call_index v ≡ none) × (s.next_tool_index ≡ n))
    ⊎ ((call_index v ≡ some n) × (s.next_tool_index ≡ n + 1))

if_Numbered :
    (n : ℕ) (b : Bool) (x y : ClaudeState × Converted)
    → Numbered n x
    → Numbered n y
    → Numbered n (if b then x else y)
if_Numbered n true x y hx hy = hx
if_Numbered n false x y hx hy = hy

call_Numbered :
    (s : ClaudeState) (now : ℤ) (o : Option (ToolCallAcc × List ToolCallAcc))
    → Numbered s.next_tool_index (emit_call s now o)
call_Numbered s now none = refl
call_Numbered s now (some (acc, rest)) = inr (call_index-call s now s.next_tool_index acc, refl)

finish-Numbered :
    (s : ClaudeState) (now : ℤ) (reason : Option Text)
    → Numbered s.next_tool_index (on_stop_reason s now reason)
finish-Numbered s now none = refl
finish-Numbered s now (some reason) = inl (call_index-finish _ now, refl)

merged_Numbered :
    (s : ClaudeState) (now : ℤ) (reason : Option Text) (usage : Option Value)
    → Numbered s.next_tool_index (on_stop_reason (merge_some s usage) now reason)
merged_Numbered s now reason none = finish-Numbered s now reason
merged_Numbered s now reason (some usage) = finish-Numbered (merge_some s (some usage)) now reason

delta_Numbered :
    (k : DeltaKind) (s : ClaudeState) (payload : Value) (now : ℤ)
    → Numbered s.next_tool_index (on_delta k s payload now)
delta_Numbered text_delta s payload now =
    if_Numbered s.next_tool_index (is_empty (delta_text (codes "text") payload)) _ _ refl
      (inl (call_index-text s now (delta_text (codes "text") payload), refl))
delta_Numbered thinking_delta s payload now =
    if_Numbered s.next_tool_index (is_empty (delta_text (codes "thinking") payload)) _ _ refl
      (inl (call_index-thinking s now (delta_text (codes "thinking") payload), refl))
delta_Numbered input_json_delta s payload now =
    if_Numbered s.next_tool_index (is_empty (delta_text (codes "partial_json") payload)) _ _ refl
      refl
delta_Numbered other_delta s payload now = refl

event_Numbered :
    (k : EventKind) (s : ClaudeState) (payload : Value) (now : ℤ)
    → Numbered s.next_tool_index (on_event k s payload now)
unfolding message_start content_block_start content_block_stop content_block_delta message_delta
    message_stop
event_Numbered at_message_start s payload now = inl (call_index-role _ now, refl)
event_Numbered at_block_start s payload now =
    if_Numbered s.next_tool_index
      (is_tool_use (str_at (codes "content_block") (codes "type") payload)) _ _ refl refl
event_Numbered at_block_stop s payload now =
    call_Numbered s now (take_acc (index_of payload) s.tools)
event_Numbered at_block_delta s payload now =
    delta_Numbered (delta_kind (delta_text (codes "type") payload)) s payload now
event_Numbered at_message_delta s payload now =
    merged_Numbered s now (str_at (codes "delta") (codes "stop_reason") payload)
      (get (codes "usage") payload)
event_Numbered at_message_stop s payload now =
    if_Numbered s.next_tool_index s.finish_sent _ _ refl (inl (call_index-finish _ now, refl))
event_Numbered at_other s payload now = refl

-- The calls of `vs` are numbered from `n` on.
abbrev Counts : ℕ → List Value → Type 0
Counts n vs = indexes vs ≡ count_from n (length (indexes vs))

add_Counts :
    (n : ℕ) (r : ClaudeState × Converted) (vs : List Value)
    → Numbered n r
    → Counts r.0.next_tool_index vs
    → Counts n (emitted r.1 vs)
unfolding indexes count_from
add_Counts n (s, ignore) vs h c = subst (λ k. Counts k vs) h c
add_Counts n (s, emit v) vs (inl (p, q)) c = rw p (subst (λ k. Counts k vs) q c)
add_Counts n (s, emit v) vs (inr (p, q)) c = rw p (ap (λ ks. n ∷ ks) (subst (λ k. Counts k vs) q c))

-- The tool calls of a stream are numbered without a gap, from the state's counter on, which is 0 at
-- first, in the order in which they are sent.
pub outputs-indexes :
    (s : ClaudeState) (es : List Incoming)
    → indexes (outputs s es) ≡ count_from s.next_tool_index (length (indexes (outputs s es)))
unfolding outputs convert_event indexes count_from
outputs-indexes s [] = refl
outputs-indexes s (e ∷ es) =
    add_Counts s.next_tool_index (translate s e) (outputs (translate s e).0 es)
      (event_Numbered (event_kind (event_type e)) s e.payload e.now)
      (outputs-indexes (translate s e).0 es)
