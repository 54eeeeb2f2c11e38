-- ===== src/Pump/Terminal.antt =====
-- A stream that the pump ends well has its finish chunk.
use heterion_router.Prelude.{
  ℕ, zero, suc, Bool, true, false, ◌||◌, Option, none, some, List, [], ◌∷◌, ◌++◌, Text, codes,
  text_eq, if◌then◌else◌, ◌≡◌, refl, sym, ◌∙◌, ◌⊎◌, inl, inr,
}
use mathlib.Core.Path.{subst}
use heterion_router.Prelude.Whitespace.{trim}
use heterion_router.Json.{Value}
use heterion_router.Sse.{SseEvent, push_bytes}
use heterion_router.Repetition.Stream.{StreamChunk, done}
use heterion_router.Pump.{
  is_some, openai_chunk_to_stream_chunk, MissingTerminal, synthesize_stop, fails, Ending, hung_up,
  completed, failed, Arrival, closed, bytes, broken, Answer, chunks, refused, PumpState, Step,
  deliver, send, synthesized, on_missing, end_on_done, mark, send_some, emit_chunk, then_rest,
  emit_chunks, on_answer, on_payload, take_event, take_events, pump_round, go_on, unterminated,
  pump,
}
use heterion_router.Pump.Normalize.{normalize_tool_call_deltas}

-- A chunk with a finish reason is among those that the client got.
unfoldable pub finished_in : List StreamChunk → Bool
finished_in [] = false
finished_in (c ∷ cs) = is_some c.finish_reason || finished_in cs

finished_in-append :
    (cs : List StreamChunk) (c : StreamChunk)
    → finished_in (cs ++ c ∷ []) ≡ (finished_in cs || is_some c.finish_reason)
unfolding finished_in
finished_in-append [] c = last (is_some c.finish_reason)
  where
    last : (b : Bool) → (b || false) ≡ b
    last true = refl
    last false = refl
finished_in-append (d ∷ cs) c = front (is_some d.finish_reason) (finished_in-append cs c)
  where
    front :
        (b : Bool)
        → finished_in (cs ++ c ∷ []) ≡ (finished_in cs || is_some c.finish_reason)
        → (b || finished_in (cs ++ c ∷ [])) ≡ ((b || finished_in cs) || is_some c.finish_reason)
    front true h = refl
    front false h = h

or_false : (b : Bool) → b ≡ (b || false)
or_false true = refl
or_false false = refl

or_true : (b : Bool) → true ≡ (b || true)
or_true true = refl
or_true false = refl

module _ {T : Type 0} where
  -- A good end: the client got a finish chunk, or takes no chunk any more.
  abbrev pub EndsWell : PumpState T → Ending → Type 0
  EndsWell s completed = (finished_in s.got ≡ true) ⊎ (s.room ≡ 0)
  EndsWell s hung_up = Unit {0}
  EndsWell s (failed e) = Unit {0}

  -- While the pump runs, its mark says whether the client got a finish chunk.
  abbrev Sound : Step T → Type 0
  Sound (s, none) = s.finish_seen ≡ finished_in s.got
  Sound (s, some ending) = EndsWell s ending

  if_Sound : (b : Bool) (x y : Step T) → Sound x → Sound y → Sound (if b then x else y)
  if_Sound true x y hx hy = hx
  if_Sound false x y hx hy = hy

  deliver-Sound :
      (s : PumpState T) (c : StreamChunk) (room : ℕ)
      → s.finish_seen ≡ (finished_in s.got || is_some c.finish_reason)
      → Sound (deliver s c room)
  deliver-Sound s c zero h = tt
  deliver-Sound s c (suc room) h = h ∙ sym (finished_in-append s.got c)

  marked :
      (s : PumpState T) (c : StreamChunk) (o : Option Text)
      → c.finish_reason ≡ o
      → s.finish_seen ≡ finished_in s.got
      → Sound (send (mark s o) c)
  marked s c none e h = deliver-Sound s c s.room (h ∙ rw e (or_false (finished_in s.got)))
  marked s c (some reason) e h =
      deliver-Sound (record s { finish_seen = true }) c s.room (rw e (or_true (finished_in s.got)))

  send_some-Sound :
      (s : PumpState T) (o : Option StreamChunk)
      → s.finish_seen ≡ finished_in s.got
      → Sound (send_some s o)
  send_some-Sound s none h = h
  send_some-Sound s (some c) h = marked s c c.finish_reason refl h

  stopped :
      (s : PumpState T) (room : ℕ)
      → s.room ≡ room
      → Sound (synthesized (deliver s (done (codes "stop")) room))
  stopped s zero e = inr e
  stopped s (suc room) e =
      inl (finished_in-append s.got (done (codes "stop")) ∙ sym (or_true (finished_in s.got)))

  on_missing-Sound : (s : PumpState T) (missing : MissingTerminal) → Sound (on_missing missing s)
  on_missing-Sound s synthesize_stop = stopped s s.room refl
  on_missing-Sound s fails = tt

  seen_Sound :
      (s : PumpState T) (missing : MissingTerminal) (b : Bool)
      → s.finish_seen ≡ b
      → s.finish_seen ≡ finished_in s.got
      → Sound (if b then (s, some completed) else on_missing missing s)
  seen_Sound s missing true e h = inl (sym h ∙ e)
  seen_Sound s missing false e h = on_missing-Sound s missing

  end_on_done-Sound :
      (s : PumpState T) (missing : MissingTerminal)
      → s.finish_seen ≡ finished_in s.got
      → Sound (end_on_done missing s)
  unfolding end_on_done
  end_on_done-Sound s missing h = seen_Sound s missing s.finish_seen refl h

module _ {T : Type 0} (lossy : List ℕ → Text) (from_str : Text → Option Value)
    (usage_detail : Value → Option Value) (on_event : T → SseEvent → Value → T × Answer)
    (missing : MissingTerminal) where
  then-Sound :
      (r : Step T) (rest : PumpState T → Step T)
      → Sound r
      → ((s : PumpState T) → s.finish_seen ≡ finished_in s.got → Sound (rest s))
      → Sound (then_rest lossy from_str usage_detail on_event missing r rest)
  then-Sound (s, some ending) rest h k = h
  then-Sound (s, none) rest h k = k s h

  chunks-Sound :
      (vs : List Value) (s : PumpState T)
      → s.finish_seen ≡ finished_in s.got
      → Sound (emit_chunks lossy from_str usage_detail on_event missing vs s)
  unfolding emit_chunks
  chunks-Sound [] s h = h
  chunks-Sound (v ∷ vs) s h =
      then-Sound (emit_chunk lossy from_str usage_detail on_event missing s v)
        (emit_chunks lossy from_str usage_detail on_event missing vs)
        (send_some-Sound
          (record s { tool_call_ids = (normalize_tool_call_deltas s.tool_call_ids v).0 })
          (openai_chunk_to_stream_chunk usage_detail
            (normalize_tool_call_deltas s.tool_call_ids v).1)
          h)
        (chunks-Sound vs)

  answer-Sound :
      (s : PumpState T) (r : T × Answer)
      → s.finish_seen ≡ finished_in s.got
      → Sound (on_answer lossy from_str usage_detail on_event missing s r)
  answer-Sound s (t, refused e) h = tt
  answer-Sound s (t, chunks vs) h = chunks-Sound vs (record s { translator = t }) h

  payload-Sound :
      (s : PumpState T) (event : SseEvent) (o : Option Value)
      → s.finish_seen ≡ finished_in s.got
      → Sound (on_payload lossy from_str usage_detail on_event missing s event o)
  payload-Sound s event none h = h
  payload-Sound s event (some payload) h = answer-Sound s (on_event s.translator event payload) h

  events-Sound :
      (events : List SseEvent) (s : PumpState T)
      → s.finish_seen ≡ finished_in s.got
      → Sound (take_events lossy from_str usage_detail on_event missing events s)
  unfolding take_events
  events-Sound [] s h = h
  events-Sound (event ∷ more) s h =
      then-Sound (take_event lossy from_str usage_detail on_event missing s event)
        (take_events lossy from_str usage_detail on_event missing more)
        (if_Sound (text_eq (trim event.payload) (codes "[DONE]")) (end_on_done missing s)
          (on_payload lossy from_str usage_detail on_event missing s event (from_str event.payload))
          (end_on_done-Sound s missing h) (payload-Sound s event (from_str event.payload) h))
        (events-Sound more)

  round-Sound :
      (s : PumpState T) (arrival : Arrival)
      → s.finish_seen ≡ finished_in s.got
      → Sound (pump_round lossy from_str usage_detail on_event missing s arrival)
  round-Sound s closed h = tt
  round-Sound s (broken message) h = tt
  round-Sound s (bytes chunk) h =
      events-Sound (push_bytes lossy s.decoder chunk).1
        (record s { decoder = (push_bytes lossy s.decoder chunk).0 }) h

  abbrev Good : PumpState T × Ending → Type 0
  Good (s, ending) = EndsWell s ending

  end_Good :
      (s : PumpState T) (b : Bool)
      → s.finish_seen ≡ b
      → s.finish_seen ≡ finished_in s.got
      → Good (if b then (s, completed) else (s, failed unterminated))
  end_Good s true e h = inl (sym h ∙ e)
  end_Good s false e h = tt

  go_Good :
      (r : Step T) (rest : PumpState T → PumpState T × Ending)
      → Sound r
      → ((s : PumpState T) → s.finish_seen ≡ finished_in s.got → Good (rest s))
      → Good (go_on lossy from_str usage_detail on_event missing r rest)
  go_Good (s, some ending) rest h k = h
  go_Good (s, none) rest h k = k s h

  pump-Good :
      (body : List Arrival) (s : PumpState T)
      → s.finish_seen ≡ finished_in s.got
      → Good (pump lossy from_str usage_detail on_event missing body s)
  unfolding pump
  pump-Good [] s h = end_Good s s.finish_seen refl h
  pump-Good (arrival ∷ more) s h =
      go_Good (pump_round lossy from_str usage_detail on_event missing s arrival)
        (pump lossy from_str usage_detail on_event missing more) (round-Sound s arrival h)
        (pump-Good more)

  -- A pump that starts with a mark true of what the client got and that ends without an error has
  -- sent the client a chunk with a finish reason, or the client takes no chunk any more; this holds
  -- for every body and every handler.
  pub pump-completed :
      (body : List Arrival) (s : PumpState T)
      → s.finish_seen ≡ finished_in s.got
      → (pump lossy from_str usage_detail on_event missing body s).1 ≡ completed
      → (finished_in (pump lossy from_str usage_detail on_event missing body s).0.got ≡ true)
        ⊎ ((pump lossy from_str usage_detail on_event missing body s).0.room ≡ 0)
  pump-completed body s h e =
      subst (EndsWell (pump lossy from_str usage_detail on_event missing body s).0) e
        (pump-Good body s h)
