-- ===== src/Translate/Claude/Finish.antt =====
-- How a stream of the Claude adapter ends.
use heterion_router.Prelude.{
  Bool, true, false, Option, none, some, List, [], ◌∷◌, ◌++◌, Text, codes, if◌then◌else◌, ◌≡◌, refl,
  ◌∙◌, ap, inl, inr,
}
use heterion_router.Json.{Value, get}
use heterion_router.Translate.Int.{ℤ}
use heterion_router.Translate.Reader.{finish_reason_of, cons_some, reasons}
use heterion_router.Translate.Claude.{ClaudeState, new, Converted, emit, ignore}
use heterion_router.Translate.Claude.Events.{
  EventKind, at_message_start, at_block_start, at_block_stop, at_block_delta, at_message_delta,
  at_message_stop, at_other, emit_finish, str_at, on_event, event_kind, message_delta, message_stop,
  on_stop_reason, merge_some, convert_event, convert_stop_reason,
}
use heterion_router.Translate.Claude.Stream.{Incoming, event_type, translate, outputs, emitted}
use heterion_router.Translate.Claude.Chunks.{finish_reason_of-finish}
use heterion_router.Translate.Claude.Quiet.{
  given, converted, closing, closing_reason_of, NoClosing, NoReason, event_Quiet,
}

-- What is emitted first does not change the reasons behind it.
cons_some-nil : (o : Option Text) (ts : List Text) → cons_some o [] ≡ [] → cons_some o ts ≡ ts
cons_some-nil none ts h = refl
cons_some-nil (some t) ts h = cc h

reasons-emitted :
    (c : Converted) (vs : List Value)
    → reasons (emitted c []) ≡ []
    → reasons (emitted c vs) ≡ reasons vs
unfolding reasons
reasons-emitted ignore vs h = refl
reasons-emitted (emit v) vs h = cons_some-nil (finish_reason_of v) (reasons vs) h

-- Once the finish chunk is out, a stream without another stop reason says no more of it.
pub finished_silent :
    (s : ClaudeState) (es : List Incoming)
    → s.finish_sent ≡ true
    → NoReason es
    → reasons (outputs s es) ≡ []
unfolding outputs reasons convert_event
finished_silent s [] h n = refl
finished_silent s (e ∷ es) h (n, ns) =
    let (q, h1, r1) =
      event_Quiet true s.finish_reason s h refl (event_kind (event_type e)) e.payload e.now n
        (inl refl) in
    reasons-emitted (translate s e).1 (outputs (translate s e).0 es) q
    ∙ finished_silent (translate s e).0 es h1 ns

unconverted : (o : Option Text) → converted o ≡ none → o ≡ none
unconverted none h = refl
unconverted (some reason) h = cc h

no_reason : (k : EventKind) (payload : Value) → closing k payload ≡ none → given k payload ≡ none
no_reason at_message_delta payload h =
    unconverted (str_at (codes "delta") (codes "stop_reason") payload) h
no_reason at_message_start payload h = refl
no_reason at_block_start payload h = refl
no_reason at_block_stop payload h = refl
no_reason at_block_delta payload h = refl
no_reason at_message_stop payload h = refl
no_reason at_other payload h = refl

-- The event sends the finish chunk with this reason.
abbrev Closed : Text → ClaudeState × Converted → Type 0
Closed reason (s, c) =
    ((vs : List Value) → reasons (emitted c vs) ≡ reason ∷ reasons vs) × (s.finish_sent ≡ true)

reason_Closed :
    (s : ClaudeState) (now : ℤ) (o : Option Text) (reason : Text)
    → converted o ≡ some reason
    → Closed reason (on_stop_reason s now o)
unfolding reasons
reason_Closed s now none reason h = cc h
reason_Closed s now (some o) reason h = (
  λ vs.
      rw
        (finish_reason_of-finish
          (record s { finish_reason = some (convert_stop_reason o); finish_sent = true }) now)
        (ap (λ t. t ∷ reasons vs) (cc h)),
  refl,
)

stop_Closed :
    (s : ClaudeState) (now : ℤ) (reason : Text) (b : Bool)
    → s.finish_sent ≡ b
    → s.finish_sent ≡ false
    → s.finish_reason ≡ none
    → some (codes "stop") ≡ some reason
    → Closed reason (if b then (s, ignore) else emit_finish now (record s { finish_sent = true }))
unfolding reasons
stop_Closed s now reason true e f n h = cc (e, f)
stop_Closed s now reason false e f n h = (
  λ vs.
      rw (finish_reason_of-finish (record s { finish_sent = true }) now, n)
        (ap (λ t. t ∷ reasons vs) (cc h)),
  refl,
)

event_Closed :
    (k : EventKind) (s : ClaudeState) (payload : Value) (now : ℤ) (reason : Text)
    → s.finish_sent ≡ false
    → s.finish_reason ≡ none
    → closing k payload ≡ some reason
    → Closed reason (on_event k s payload now)
unfolding message_delta message_stop reasons
event_Closed at_message_delta s payload now reason f n h =
    reason_Closed (merge_some s (get (codes "usage") payload)) now
      (str_at (codes "delta") (codes "stop_reason") payload) reason h
event_Closed at_message_stop s payload now reason f n h =
    stop_Closed s now reason s.finish_sent refl f n h
event_Closed at_message_start s payload now reason f n h = cc h
event_Closed at_block_start s payload now reason f n h = cc h
event_Closed at_block_stop s payload now reason f n h = cc h
event_Closed at_block_delta s payload now reason f n h = cc h
event_Closed at_other s payload now reason f n h = cc h

closes_once :
    (s : ClaudeState) (before : List Incoming) (e : Incoming) (after : List Incoming)
    (reason : Text)
    → s.finish_sent ≡ false
    → s.finish_reason ≡ none
    → NoClosing before
    → closing_reason_of e ≡ some reason
    → NoReason after
    → reasons (outputs s (before ++ e ∷ after)) ≡ reason ∷ []
unfolding outputs convert_event
closes_once s [] e after reason f n q c a =
    let (said, done) = event_Closed (event_kind (event_type e)) s e.payload e.now reason f n c in
    said (outputs (translate s e).0 after)
    ∙ ap (λ ts. reason ∷ ts) (finished_silent (translate s e).0 after done a)
closes_once s (b ∷ before) e after reason f n (q, qs) c a =
    let k = event_kind (event_type b) in
    let (silent, f1, n1) =
      event_Quiet false none s f n k b.payload b.now (no_reason k b.payload q) (inr q) in
    reasons-emitted (translate s b).1 (outputs (translate s b).0 (before ++ e ∷ after)) silent
    ∙ closes_once (translate s b).0 before e after reason f1 n1 qs c a

-- If no event before `e` closes the stream, `e` closes it with a reason, and no event after it
-- gives a stop reason, then the chunks of the stream carry exactly one finish reason: the one of
-- `e`, which is the stop reason of a `message_delta` in the words of OpenAI, or `stop` for a
-- `message_stop`.
pub outputs-reasons :
    (before : List Incoming) (e : Incoming) (after : List Incoming) (reason : Text)
    → NoClosing before
    → closing_reason_of e ≡ some reason
    → NoReason after
    → reasons (outputs new (before ++ e ∷ after)) ≡ reason ∷ []
outputs-reasons before e after reason q c a = closes_once new before e after reason refl refl q c a
