-- ===== src/Translate/Claude/Stream.antt =====
-- A whole stream through the Claude adapter: the closure that `pump_sse_stream` is given in
-- crates/heterion-router-gateway/src/claude.rs. `now` is what the clock says at the event.
use heterion_router.Prelude.{Option, none, some, List, [], ◌∷◌, Text, codes}
use heterion_router.Json.{Value, get, as_str, and_then}
use heterion_router.Translate.Int.{ℤ}
use heterion_router.Translate.Claude.{ClaudeState, Converted, emit, ignore}
use heterion_router.Translate.Claude.Events.{convert_event}

pub record Incoming : Type 0 where
  pub event : Option Text
  pub payload : Value
  pub now : ℤ

abbrev pub type_or_event : Option Text → Option Text → Text
type_or_event none none = []
type_or_event none (some event) = event
type_or_event (some ty) event = ty

-- The payload's `type`, or else the name of the SSE event.
abbrev pub event_type : Incoming → Text
event_type e = type_or_event (and_then (get (codes "type") e.payload) as_str) e.event

abbrev pub translate : ClaudeState → Incoming → ClaudeState × Converted
translate s e = convert_event s (event_type e) e.payload e.now

abbrev pub emitted : Converted → List Value → List Value
emitted (emit v) vs = v ∷ vs
emitted ignore vs = vs

-- The state after the events, and the chunks that they give.
unfoldable pub final : ClaudeState → List Incoming → ClaudeState
final s [] = s
final s (e ∷ es) = final (translate s e).0 es

unfoldable pub outputs : ClaudeState → List Incoming → List Value
outputs s [] = []
outputs s (e ∷ es) = emitted (translate s e).1 (outputs (translate s e).0 es)
