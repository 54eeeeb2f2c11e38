-- ===== src/Pump.antt =====
-- From the bytes of an upstream to the chunks of a client: `pump_sse_stream` and `end_on_done` in
-- crates/heterion-router-gateway/src/responses.rs, and `openai_chunk_to_stream_chunk` in
-- crates/heterion-router-gateway/src/backend.rs. Parameters are `String::from_utf8_lossy`,
-- `serde_json::from_str`, the handler `on_event` of a backend with its state, and
-- `CachedUsage::from_payload`, which gives the detail of a usage. A chunk's usage is kept as its JSON.
use heterion_router.Prelude.{
  ℕ, zero, suc, ◌+◌, Bool, true, false, ◌||◌, Option, none, some, List, [], ◌∷◌, ◌++◌, Text, codes,
  text_eq, is_empty, if◌then◌else◌,
}
use heterion_router.Prelude.Whitespace.{trim}
use heterion_router.Json.{
  Value, Number, Fields, null, bool, number, string, array, object, fields, get, as_str, as_u64,
  as_array, and_then, unwrap_or,
}
use heterion_router.Sse.{SseEvent, SseDecoder, push_bytes}
use heterion_router.Repetition.Stream.{StreamChunk, done}
use heterion_router.Upstream.{GatewayError, upstream}
use heterion_router.Translate.Int.{wrap32}
use heterion_router.Translate.Reader.{head}
use heterion_router.Pump.Normalize.{ToolCallIds, normalize_tool_call_deltas}
pub mod Normalize
pub mod Terminal
pub mod Contract
mod Tests

abbrev pub nonempty : Option Text → Option Text
nonempty none = none
nonempty (some s) = if is_empty s then none else some s

abbrev pub or_value : Option Value → Option Value → Option Value
or_value none other = other
or_value (some v) other = some v

abbrev pub only_object : Option Value → Option Value
only_object none = none
only_object (some (object fs)) = some (object fs)
only_object (some null) = none
only_object (some (bool b)) = none
only_object (some (number n)) = none
only_object (some (string s)) = none
only_object (some (array vs)) = none

abbrev pub count_of : Text → Text → Value → ℕ
count_of key other usage =
    wrap32 (unwrap_or (and_then (or_value (get key usage) (get other usage)) as_u64) 0)

abbrev pub count : ℕ → Value
count n = number (Number.nat n)

abbrev pub usage_with : ℕ → ℕ → Value → Value
usage_with prompt completion usage = object (
    fields (
      (codes "prompt_tokens", count prompt)
      ∷ (codes "completion_tokens", count completion)
      ∷ (
        codes "total_tokens",
        count (
            wrap32 (
              unwrap_or (and_then (get (codes "total_tokens") usage) as_u64)
                (prompt + completion))),
      )
      ∷ []))

abbrev pub usage_of : Value → Value
usage_of usage =
    usage_with (count_of (codes "prompt_tokens") (codes "input_tokens") usage)
      (count_of (codes "completion_tokens") (codes "output_tokens") usage) usage

abbrev pub usage_of_some : Option Value → Option Value
usage_of_some none = none
usage_of_some (some usage) = some (usage_of usage)

abbrev pub is_some {ℓ} : {A : Type ℓ} → Option A → Bool
is_some none = false
is_some (some x) = true

-- A chunk with nothing in it is none.
abbrev pub carried : StreamChunk → Option StreamChunk
carried c =
    if is_some c.content
      || (is_some c.reasoning
          || (is_some c.tool_calls || (is_some c.finish_reason || is_some c.usage)))
    then some c
    else none

module _ (usage_detail : Value → Option Value) where
  abbrev pub stream_chunk_of : Value → Value → Value → StreamChunk
  stream_chunk_of value choice delta = record {
    content = nonempty (and_then (get (codes "content") delta) as_str);
    reasoning = nonempty (
        and_then (or_value (get (codes "reasoning_content") delta) (get (codes "reasoning") delta))
          as_str);
    tool_calls = get (codes "tool_calls") delta;
    finish_reason = and_then (get (codes "finish_reason") choice) as_str;
    usage = usage_of_some (only_object (get (codes "usage") value));
    usage_detail = usage_detail value;
  }

  unfoldable pub openai_chunk_to_stream_chunk : Value → Option StreamChunk
  openai_chunk_to_stream_chunk value =
      and_then (and_then (and_then (get (codes "choices") value) as_array) head) (λ choice.
        and_then (get (codes "delta") choice)
          (λ delta. carried (stream_chunk_of value choice delta)))

-- What the end sentinel means where no chunk has finished the stream.
pub data MissingTerminal : Type 0 where
  synthesize_stop fails : MissingTerminal

-- How the pump returns: `Ok(())` because the client hung up or because the stream has ended, or `Err`.
pub data Ending : Type 0 where
  hung_up completed : Ending
  failed : GatewayError → Ending

-- What the pump waits for: the client's end, bytes, or a broken body. A list of them is the whole body.
pub data Arrival : Type 0 where
  closed : Arrival
  bytes : List ℕ → Arrival
  broken : Text → Arrival

-- What a handler answers to an event.
pub data Answer : Type 0 where
  chunks : List Value → Answer
  refused : GatewayError → Answer

-- The locals of the pump, the handler's state, what the client got, and how many more chunks it
-- takes before it hangs up.
pub record PumpState (T : Type 0) : Type 0 where
  pub decoder : SseDecoder
  pub finish_seen : Bool
  pub tool_call_ids : ToolCallIds
  pub translator : T
  pub got : List StreamChunk
  pub room : ℕ

abbrev pub Step : Type 0 → Type 0
Step T = PumpState T × Option Ending

-- `UNTERMINATED`.
abbrev pub unterminated : GatewayError
unterminated = upstream (codes "upstream stream ended before terminal event")

module _ {T : Type 0} where
  abbrev pub deliver : PumpState T → StreamChunk → ℕ → Step T
  deliver s c zero = (s, some hung_up)
  deliver s c (suc room) = (record s { got = s.got ++ c ∷ []; room = room }, none)

  abbrev pub send : PumpState T → StreamChunk → Step T
  send s c = deliver s c s.room

  abbrev pub synthesized : Step T → Step T
  synthesized (s, ending) = (s, some completed)

  abbrev pub on_missing : MissingTerminal → PumpState T → Step T
  on_missing synthesize_stop s = synthesized (send s (done (codes "stop")))
  on_missing fails s = (s, some (failed unterminated))

  unfoldable pub end_on_done : MissingTerminal → PumpState T → Step T
  end_on_done missing s = if s.finish_seen then (s, some completed) else on_missing missing s

  abbrev pub mark : PumpState T → Option Text → PumpState T
  mark s none = s
  mark s (some reason) = record s { finish_seen = true }

  abbrev pub send_some : PumpState T → Option StreamChunk → Step T
  send_some s none = (s, none)
  send_some s (some c) = send (mark s c.finish_reason) c

module _ {T : Type 0} (lossy : List ℕ → Text) (from_str : Text → Option Value)
    (usage_detail : Value → Option Value) (on_event : T → SseEvent → Value → T × Answer)
    (missing : MissingTerminal) where
  abbrev pub emit_normal : PumpState T → ToolCallIds × Value → Step T
  emit_normal s (ids, chunk) =
      send_some (record s { tool_call_ids = ids }) (openai_chunk_to_stream_chunk usage_detail chunk)

  -- One chunk of a handler.
  abbrev pub emit_chunk : PumpState T → Value → Step T
  emit_chunk s chunk = emit_normal s (normalize_tool_call_deltas s.tool_call_ids chunk)

  -- The rest of a loop, unless the round has returned.
  abbrev pub then_rest : Step T → (PumpState T → Step T) → Step T
  then_rest (s, some ending) rest = (s, some ending)
  then_rest (s, none) rest = rest s

  unfoldable pub emit_chunks : List Value → PumpState T → Step T
  emit_chunks [] s = (s, none)
  emit_chunks (chunk ∷ more) s = then_rest (emit_chunk s chunk) (emit_chunks more)

  abbrev pub on_answer : PumpState T → T × Answer → Step T
  on_answer s (t, refused e) = (record s { translator = t }, some (failed e))
  on_answer s (t, chunks vs) = emit_chunks vs (record s { translator = t })

  abbrev pub on_payload : PumpState T → SseEvent → Option Value → Step T
  on_payload s event none = (s, none)
  on_payload s event (some payload) = on_answer s (on_event s.translator event payload)

  -- One event of the decoder.
  abbrev pub take_event : PumpState T → SseEvent → Step T
  take_event s event =
      if text_eq (trim event.payload) (codes "[DONE]")
      then end_on_done missing s
      else on_payload s event (from_str event.payload)

  unfoldable pub take_events : List SseEvent → PumpState T → Step T
  take_events [] s = (s, none)
  take_events (event ∷ more) s = then_rest (take_event s event) (take_events more)

  abbrev pub decoded : PumpState T → SseDecoder × List SseEvent → Step T
  decoded s (d, events) = take_events events (record s { decoder = d })

  -- One round of the loop.
  abbrev pub pump_round : PumpState T → Arrival → Step T
  pump_round s closed = (s, some hung_up)
  pump_round s (broken message) = (s, some (failed (upstream message)))
  pump_round s (bytes chunk) = decoded s (push_bytes lossy s.decoder chunk)

  -- Behind the loop.
  abbrev pub at_end : PumpState T → PumpState T × Ending
  at_end s = if s.finish_seen then (s, completed) else (s, failed unterminated)

  abbrev pub go_on : Step T → (PumpState T → PumpState T × Ending) → PumpState T × Ending
  go_on (s, some ending) rest = (s, ending)
  go_on (s, none) rest = rest s

  -- The loop of `pump_sse_stream`.
  unfoldable pub pump : List Arrival → PumpState T → PumpState T × Ending
  pump [] s = at_end s
  pump (arrival ∷ more) s = go_on (pump_round s arrival) (pump more)
