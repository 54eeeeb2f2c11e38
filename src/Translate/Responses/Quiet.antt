-- ===== src/Translate/Responses/Quiet.antt =====
-- The events of a Responses API stream that say nothing of its end.
use heterion_router.Prelude.{
  ℕ, Bool, true, false, Option, none, some, List, [], ◌∷◌, ◌++◌, Text, codes, is_empty, lookup,
  if◌then◌else◌, ◌≡◌, refl, ◌∙◌,
}
use heterion_router.Json.{Value, Fields, object, insert_field}
use heterion_router.Translate.Chunk.{announce_role, insert_text}
use heterion_router.Translate.Reader.{reasons}
use heterion_router.Translate.Envelope.{finish_reason_of-stream_chunk}
use heterion_router.Translate.Responses.{
  ToolCallEntry, ResponsesState, Converted, ignore, with_role, delta_chunk, tool_chunk,
}
use heterion_router.Translate.Responses.Calls.{
  fallback_call_id, text_at, is_function_call, put_entry, indexed, opening, emit_opening,
  announce_call, add_call, name_of, added_item, push_args, push_to, call_or_fallback, done_id,
  done_call, claim_of, dropped, close_call, finish_call, done_with, done_item, closing, final_args,
  args_of,
}
use heterion_router.Translate.Responses.Events.{
  EventKind, at_text, at_reasoning, at_added, at_arguments, at_done, at_completed, at_incomplete,
  at_failed, at_other, event_kind, event_type, Handled, sent, upstream_failed, handled,
  handle_event,
}

-- What comes from upstream: the name of the event, and its payload.
abbrev pub Incoming : Type 0
Incoming = Option Text × Value

-- A failure ends the stream.
abbrev pub joined : Handled → List Value → List Value
joined (sent vs) later = vs ++ later
joined (upstream_failed message) later = []

-- The chunks of a stream.
unfoldable pub outputs : ResponsesState → List Incoming → List Value
outputs s [] = []
outputs s ((event, payload) ∷ es) =
    let r = handle_event s event payload in joined r.1 (outputs r.0 es)

abbrev pub ends_with : EventKind → Bool → Bool
ends_with at_completed later = true
ends_with at_incomplete later = true
ends_with at_failed later = false
ends_with at_text later = later
ends_with at_reasoning later = later
ends_with at_added later = later
ends_with at_arguments later = later
ends_with at_done later = later
ends_with at_other later = later

-- The first event that ends the response is a `completed` or an `incomplete`.
unfoldable pub ends_well : List Incoming → Bool
ends_well [] = false
ends_well ((event, payload) ∷ es) = ends_with (event_kind (event_type event payload)) (ends_well es)

-- Nothing sent ends the stream, and the mark of the end is as before.
abbrev pub Quiet : Bool → ResponsesState × Converted → Type 0
Quiet b (s, c) =
    ((vs : List Value) → reasons (joined (handled c) vs) ≡ reasons vs) × (s.finish_sent ≡ b)

pub ignored : (b : Bool) (s : ResponsesState) → s.finish_sent ≡ b → Quiet b (s, ignore)
ignored b s h = (λ vs. refl, h)

pub if_Quiet :
    (b c : Bool) (x y : ResponsesState × Converted)
    → Quiet b x
    → Quiet b y
    → Quiet b (if c then x else y)
if_Quiet b true x y hx hy = hx
if_Quiet b false x y hx hy = hy

pub role_Quiet :
    (b : Bool) (s : ResponsesState) (extend : Fields → Fields) (r : Fields × Bool)
    → s.finish_sent ≡ b
    → Quiet b (with_role s extend r)
unfolding reasons
role_Quiet b s extend (delta, role) h = (
  λ vs. rw (finish_reason_of-stream_chunk s.chat_id s.created s.model (object (extend delta))) refl,
  h,
)

pub tool_Quiet :
    (b : Bool) (s : ResponsesState) (calls : Value)
    → s.finish_sent ≡ b
    → Quiet b (tool_chunk s calls)
unfolding tool_chunk
tool_Quiet b s calls h =
    role_Quiet b s (λ delta. insert_field (codes "tool_calls") calls delta)
      (announce_role Fields.end s.role_sent) h

pub text_Quiet :
    (b : Bool) (s : ResponsesState) (content reasoning : Option Text)
    → s.finish_sent ≡ b
    → Quiet b (delta_chunk s content reasoning)
unfolding delta_chunk
text_Quiet b s content reasoning h =
    role_Quiet b s (λ delta. insert_text delta content reasoning)
      (announce_role Fields.end s.role_sent) h

pub open_Quiet :
    (b : Bool) (s : ResponsesState) (call_id name : Text) (entry : ToolCallEntry) (o : Option ℕ)
    → s.finish_sent ≡ b
    → Quiet b (emit_opening call_id name (indexed s call_id entry o))
open_Quiet b s call_id name entry (some n) h =
    tool_Quiet b (put_entry s call_id entry) (opening n call_id name) h
open_Quiet b s call_id name entry none h =
    tool_Quiet b (indexed s call_id entry none).0 (opening s.tool_call_index call_id name) h

pub announce-Quiet :
    (b : Bool) (s : ResponsesState) (call_id name : Text) (entry : ToolCallEntry)
    → s.finish_sent ≡ b
    → Quiet b (announce_call s call_id name entry)
announce-Quiet b s call_id name entry h =
    if_Quiet b (is_empty name) _ _ (ignored b (put_entry s call_id entry) h)
      (open_Quiet b s call_id name entry entry.index h)

pub add_Quiet :
    (b c : Bool) (s : ResponsesState) (payload item : Value) (call_id : Text)
    → s.finish_sent ≡ b
    → Quiet b (add_call payload item (if c then fallback_call_id s else (s, call_id)))
unfolding fallback_call_id
add_Quiet b true s payload item call_id h = announce-Quiet b _ _ _ _ h
add_Quiet b false s payload item call_id h = announce-Quiet b _ _ _ _ h

pub added_Quiet :
    (b : Bool) (s : ResponsesState) (payload : Value) (o : Option Value)
    → s.finish_sent ≡ b
    → Quiet b (added_item s payload o)
added_Quiet b s payload none h = ignored b s h
added_Quiet b s payload (some item) h =
    if_Quiet b (is_function_call item) _ _
      (add_Quiet b (is_empty (text_at (codes "call_id") item)) s payload item
        (text_at (codes "call_id") item) h)
      (ignored b s h)

pub push_sent :
    (s : ResponsesState) (text call_id : Text) (o : Option ToolCallEntry)
    → (push_args s text call_id o).finish_sent ≡ s.finish_sent
push_sent s text call_id none = refl
push_sent s text call_id (some entry) = refl

pub pushed_sent :
    (s : ResponsesState) (text : Text) (o : Option Text)
    → (push_to s text o).finish_sent ≡ s.finish_sent
pushed_sent s text none = refl
pushed_sent s text (some call_id) = push_sent s text call_id (lookup call_id s.tool_calls)

pub close_Quiet :
    (b : Bool) (item : Value) (call_id : Text) (s : ResponsesState) (o : Option ℕ)
    → s.finish_sent ≡ b
    → Quiet b (close_call item call_id (s, o))
close_Quiet b item call_id s none h = ignored b (dropped s call_id) h
close_Quiet b item call_id s (some n) h =
    tool_Quiet b (dropped s call_id)
      (closing n
        (final_args (text_at (codes "arguments") item) (args_of (lookup call_id s.tool_calls))))
      h

abbrev pub Marked : Bool → ResponsesState × Option ℕ → Type 0
Marked b (s, o) = s.finish_sent ≡ b

pub if_Marked :
    (b c : Bool) (x y : ResponsesState × Option ℕ)
    → Marked b x
    → Marked b y
    → Marked b (if c then x else y)
if_Marked b true x y hx hy = hx
if_Marked b false x y hx hy = hy

pub claim_Marked :
    (s : ResponsesState) (call_id name : Text) (entry : ToolCallEntry) (o : Option ℕ)
    → Marked s.finish_sent (claim_of s call_id name entry o)
claim_Marked s call_id name entry (some n) = refl
claim_Marked s call_id name entry none = if_Marked s.finish_sent (is_empty name) _ _ refl refl

pub finish_Quiet :
    (b : Bool) (item : Value) (call_id name : Text) (s : ResponsesState) (o : Option ToolCallEntry)
    → s.finish_sent ≡ b
    → Quiet b (finish_call item call_id name s o)
finish_Quiet b item call_id name s (some entry) h =
    close_Quiet b item call_id (claim_of s call_id name entry entry.index).0
      (claim_of s call_id name entry entry.index).1
      (claim_Marked s call_id name entry entry.index ∙ h)
finish_Quiet b item call_id name s none h =
    if_Quiet b (is_empty name) _ _ (ignored b s h)
      (close_Quiet b item call_id _ (some s.tool_call_index) h)

pub done_Quiet :
    (b : Bool) (s : ResponsesState) (item : Value) (o : Option Text)
    → s.finish_sent ≡ b
    → Quiet b (done_with item (call_or_fallback s o))
unfolding fallback_call_id
done_Quiet b s item none h = finish_Quiet b item _ (name_of item) _ _ h
done_Quiet b s item (some call_id) h =
    finish_Quiet b item call_id (name_of item) s (lookup call_id s.tool_calls) h

pub item_Quiet :
    (b : Bool) (s : ResponsesState) (o : Option Value) → s.finish_sent ≡ b → Quiet b (done_item s o)
item_Quiet b s none h = ignored b s h
item_Quiet b s (some item) h =
    if_Quiet b (is_function_call item) (done_with item (done_call s item)) (s, ignore)
      (done_Quiet b s item (done_id s item) h) (ignored b s h)
