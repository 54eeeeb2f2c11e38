-- ===== src/Translate/Responses/Finish.antt =====
-- How a stream of the Responses API adapter ends.
use heterion_router.Prelude.{
  suc, Bool, true, false, Option, none, some, List, [], ◌∷◌, Text, codes, is_empty, length,
  if◌then◌else◌, ◌≡◌, refl, ◌∙◌, ap,
}
use heterion_router.Json.{Value, get}
use heterion_router.Translate.Reader.{reasons}
use heterion_router.Translate.Counting.{due, due-false}
use heterion_router.Translate.Envelope.{finish_reason_of-attach}
use heterion_router.Translate.Responses.{
  ResponsesState, TranslatedUsage, Converted, emit, ignore, delta_chunk, usage_value, finish_chunk,
  compute_finish_reason, extract_usage,
}
use heterion_router.Translate.Responses.Calls.{
  text_at, output_item_added, push_to, target, arguments_delta, output_item_done,
}
use heterion_router.Translate.Responses.Events.{
  EventKind, at_text, at_reasoning, at_added, at_arguments, at_done, at_completed, at_incomplete,
  at_failed, at_other, event_kind, event_type, on_event, convert_event, handled, handle_event,
}
use heterion_router.Translate.Responses.Quiet.{
  Incoming, joined, outputs, ends_with, ends_well, Quiet, ignored, if_Quiet, text_Quiet,
  added_Quiet, pushed_sent, item_Quiet,
}

-- What a stream has still to say after an event, and what it says.
abbrev Ends : Bool → Bool → ResponsesState × Converted → List Value → Type 0
Ends b well (s, c) later =
    length (reasons later) ≡ due s.finish_sent well
    → length (reasons (joined (handled c) later)) ≡ due b well

Quiet-Ends :
    (b well : Bool) (r : ResponsesState × Converted) (later : List Value)
    → Quiet b r
    → Ends b well r later
Quiet-Ends b well (s, c) later (q, h) e = ap length (q later) ∙ e ∙ ap (λ x. due x well) h

-- The same of an event that asks for the finish chunk.
abbrev Finishes : Bool → Bool → ResponsesState × Converted → List Value → Type 0
Finishes b well (s, c) later =
    length (reasons later) ≡ due s.finish_sent well
    → length (reasons (joined (handled c) later)) ≡ due b true

finish_Finishes :
    (s : ResponsesState) (reason : Text) (usage : Option TranslatedUsage) (later : List Value)
    (b well : Bool)
    → s.finish_sent ≡ b
    → Finishes b well
        (if b
          then (s, ignore)
          else (record s { finish_sent = true }, emit (finish_chunk s reason usage)))
        later
unfolding reasons finish_chunk
finish_Finishes s reason usage later true well h k = k ∙ ap (λ x. due x well) h
finish_Finishes s reason usage later false well h k =
    rw (finish_reason_of-attach s.chat_id s.created s.model reason (usage_value usage)) (ap suc k)

event_ends :
    (k : EventKind) (s : ResponsesState) (payload : Value) (later : List Value) (well : Bool)
    → length (reasons later) ≡ due (on_event k s payload).0.finish_sent well
    → length (reasons (joined (handled (on_event k s payload).1) later))
      ≡ due s.finish_sent (ends_with k well)
unfolding output_item_added arguments_delta output_item_done reasons
event_ends at_text s payload later well e =
    let text = text_at (codes "delta") payload in
    Quiet-Ends s.finish_sent well (on_event at_text s payload) later
      (if_Quiet s.finish_sent (is_empty text) (s, ignore) (delta_chunk s (some text) none)
        (ignored s.finish_sent s refl) (text_Quiet s.finish_sent s (some text) none refl))
      e
event_ends at_reasoning s payload later well e =
    let text = text_at (codes "delta") payload in
    Quiet-Ends s.finish_sent well (on_event at_reasoning s payload) later
      (if_Quiet s.finish_sent (is_empty text) (s, ignore) (delta_chunk s none (some text))
        (ignored s.finish_sent s refl) (text_Quiet s.finish_sent s none (some text) refl))
      e
event_ends at_added s payload later well e =
    Quiet-Ends s.finish_sent well (on_event at_added s payload) later
      (added_Quiet s.finish_sent s payload (get (codes "item") payload) refl) e
event_ends at_arguments s payload later well e =
    let text = text_at (codes "delta") payload in
    let pushed = push_to s text (target s payload) in
    Quiet-Ends s.finish_sent well (on_event at_arguments s payload) later
      (if_Quiet s.finish_sent (is_empty text) (s, ignore) (pushed, ignore)
        (ignored s.finish_sent s refl)
        (ignored s.finish_sent pushed (pushed_sent s text (target s payload))))
      e
event_ends at_done s payload later well e =
    Quiet-Ends s.finish_sent well (on_event at_done s payload) later
      (item_Quiet s.finish_sent s (get (codes "item") payload) refl) e
event_ends at_completed s payload later well e =
    finish_Finishes s (compute_finish_reason s) (extract_usage payload) later s.finish_sent well
      refl e
event_ends at_incomplete s payload later well e =
    finish_Finishes s (codes "length") (extract_usage payload) later s.finish_sent well refl e
event_ends at_failed s payload later well e = due-false s.finish_sent
event_ends at_other s payload later well e = e

-- A stream has one finish chunk if the first event that ends the response is a `completed` or an
-- `incomplete`, and none if it is a failure or there is no such event.
pub outputs-finish_once :
    (s : ResponsesState) (es : List Incoming)
    → length (reasons (outputs s es)) ≡ due s.finish_sent (ends_well es)
unfolding outputs ends_well reasons handle_event convert_event
outputs-finish_once s [] = due-false s.finish_sent
outputs-finish_once s ((event, payload) ∷ es) =
    let k = event_kind (event_type event payload) in
    event_ends k s payload (outputs (on_event k s payload).0 es) (ends_well es)
      (outputs-finish_once (on_event k s payload).0 es)
