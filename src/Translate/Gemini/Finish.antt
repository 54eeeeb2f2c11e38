-- ===== src/Translate/Gemini/Finish.antt =====
-- How a stream of the Gemini adapter ends.
use heterion_router.Prelude.{
  ◌+◌, Bool, true, false, ◌||◌, Option, none, some, List, [], ◌∷◌, ◌++◌, Text, codes, is_empty,
  length, length-append, if◌then◌else◌, ◌≡◌, refl, ◌∙◌, ap, arith,
}
use heterion_router.Json.{
  Value, Fields, object, insert_field, get, as_str, as_bool, and_then, unwrap_or,
}
use heterion_router.Translate.Int.{ℤ}
use heterion_router.Translate.Chunk.{announce_role}
use heterion_router.Translate.Reader.{reasons}
use heterion_router.Translate.Counting.{reasons-append, due, due-false}
use heterion_router.Translate.Envelope.{finish_reason_of-stream_chunk, finish_reason_of-attach}
use heterion_router.Translate.Gemini.{
  GeminiState, role_chunk, delta_chunk, tool_chunk, finish_chunk, field_of_either, with_role,
  with_usage, usage_value, capture_usage,
}
use heterion_router.Translate.Gemini.Events.{
  candidate_of, record_error, record_upstream_error, identified, announce, counted, calls_of,
  one_out, part_of, convert_part, prepend, convert_parts, parts_of, finish, final_reason,
  finish_reason_at, on_candidate, response_of, convert_event,
}

-- What is sent says nothing of the end, and the mark of the end is as before.
abbrev Quiet : Bool → GeminiState × List Value → Type 0
Quiet sent (s, vs) = (reasons vs ≡ []) × (s.finish_sent ≡ sent)

abbrev is_some_text : Option Text → Bool
is_some_text none = false
is_some_text (some t) = true

abbrev asks_candidate : Option Value → Bool
asks_candidate none = false
asks_candidate (some candidate) = is_some_text (finish_reason_at candidate)

-- The payload gives a finish reason.
abbrev pub asks : Value → Bool
asks payload = asks_candidate (candidate_of (response_of payload))

-- The step sends the finish chunk if it is asked for and did not go out, and marks it.
abbrev Ends : Bool → Bool → GeminiState × List Value → Type 0
Ends sent asked (s, vs) = (length (reasons vs) ≡ due sent asked) × (s.finish_sent ≡ (sent || asked))

or_false : (b : Bool) → b ≡ (b || false)
or_false true = refl
or_false false = refl

add_due :
    (sent asked later : Bool)
    → due sent asked + due (sent || asked) later ≡ due sent (asked || later)
add_due true asked later = refl
add_due false true later = refl
add_due false false later = ground arith

module _ (to_string : Value → Text) (to_lowercase : Text → Text) where
  if_Quiet :
      (sent b : Bool) (x y : GeminiState × List Value)
      → Quiet sent x
      → Quiet sent y
      → Quiet sent (if b then x else y)
  if_Quiet sent true x y hx hy = hx
  if_Quiet sent false x y hx hy = hy

  role_Quiet :
      (s : GeminiState) (now : ℤ) (extend : Fields → Fields) (r : Fields × Bool)
      → Quiet s.finish_sent (one_out (with_role s now extend r))
  unfolding reasons
  role_Quiet s now extend (delta, sent) =
      (rw (finish_reason_of-stream_chunk _ now _ (object (extend delta))) refl, refl)

  tool_Quiet :
      (s : GeminiState) (now : ℤ) (calls : Value)
      → Quiet s.finish_sent (one_out (tool_chunk s now calls))
  unfolding tool_chunk
  tool_Quiet s now calls =
      role_Quiet s now (λ delta. insert_field (codes "tool_calls") calls delta)
        (announce_role Fields.end s.role_sent)

  first_Quiet : (s : GeminiState) (now : ℤ) → Quiet s.finish_sent (one_out (role_chunk s now))
  unfolding role_chunk
  first_Quiet s now = role_Quiet s now (λ delta. delta) (announce_role Fields.end s.role_sent)

  announce-Quiet :
      (s : GeminiState) (id : Option Text) (response : Value) (now : ℤ)
      → Quiet s.finish_sent (announce s id response now)
  unfolding reasons
  announce-Quiet s (some id) response now = (refl, refl)
  announce-Quiet s none response now = first_Quiet (identified s response now) now

  text_Quiet :
      (s : GeminiState) (now : ℤ) (content reasoning : Option Text)
      → Quiet s.finish_sent (s, delta_chunk s now content reasoning ∷ [])
  unfolding reasons delta_chunk
  text_Quiet s now content reasoning = (rw (finish_reason_of-stream_chunk _ now _ _) refl, refl)

  nothing_Quiet : (s : GeminiState) → Quiet s.finish_sent (s, [])
  unfolding reasons
  nothing_Quiet s = (refl, refl)

  part_Quiet :
      (s : GeminiState) (now : ℤ) (part : Value) (call : Option Value)
      → Quiet s.finish_sent (part_of to_string to_lowercase s now part call)
  part_Quiet s now part (some call) =
      if_Quiet s.finish_sent (is_empty (unwrap_or (and_then (get (codes "name") call) as_str) [])) _
        _ (nothing_Quiet s)
        (tool_Quiet (counted s) now (
          calls_of to_string to_lowercase s part call
            (unwrap_or (and_then (get (codes "name") call) as_str) [])))
  part_Quiet s now part none =
      if_Quiet s.finish_sent (is_empty (unwrap_or (and_then (get (codes "text") part) as_str) [])) _
        _ (nothing_Quiet s)
        (if_Quiet s.finish_sent (unwrap_or (and_then (get (codes "thought") part) as_bool) false) _
          _
          (text_Quiet s now none (some (unwrap_or (and_then (get (codes "text") part) as_str) [])))
          (text_Quiet s now (some (unwrap_or (and_then (get (codes "text") part) as_str) [])) none))

  then_Quiet :
      (sent : Bool) (s : GeminiState) (vs : List Value) (r : GeminiState × List Value)
      → Quiet sent (s, vs)
      → Quiet s.finish_sent r
      → Quiet sent (prepend vs r)
  then_Quiet sent s vs (s1, ws) (p, q) (p1, q1) = (reasons-append vs ws ∙ rw (p, p1) refl, q1 ∙ q)

  parts_Quiet :
      (s : GeminiState) (now : ℤ) (parts : List Value)
      → Quiet s.finish_sent (convert_parts to_string to_lowercase s now parts)
  unfolding convert_parts
  parts_Quiet s now [] = nothing_Quiet s
  parts_Quiet s now (part ∷ parts) =
      let r = convert_part to_string to_lowercase s now part in
      then_Quiet s.finish_sent r.0 r.1 (convert_parts to_string to_lowercase r.0 now parts)
        (part_Quiet s now part (get (codes "functionCall") part)) (parts_Quiet r.0 now parts)

  finish_branch :
      (s : GeminiState) (now : ℤ) (reason : Text) (sent : Bool)
      → s.finish_sent ≡ sent
      → Ends sent true (
          if sent then (s, []) else (
            record s { finish_sent = true },
            finish_chunk
                  (record s { finish_sent = true })
                  now
                  (final_reason to_string to_lowercase s reason)
                ∷ [],
          ))
  unfolding reasons finish_chunk
  finish_branch s now reason true e = (refl, e)
  finish_branch s now reason false e = (
    rw
        (finish_reason_of-attach _ now _ (final_reason to_string to_lowercase s reason)
          (usage_value s.usage))
        refl,
    refl,
  )

  finish-Ends :
      (s : GeminiState) (now : ℤ) (o : Option Text) (sent : Bool)
      → s.finish_sent ≡ sent
      → Ends sent (is_some_text o) (finish to_string to_lowercase s now o)
  unfolding reasons
  finish-Ends s now none true e = (refl, e)
  finish-Ends s now none false e = (refl, e)
  finish-Ends s now (some reason) sent e =
      let h = finish_branch s now reason s.finish_sent refl in rw⁻¹ e h

  usage_sent :
      (s : GeminiState) (response payload : Value)
      → (capture_usage s response payload).finish_sent ≡ s.finish_sent
  unfolding capture_usage
  usage_sent s response payload =
      with_usage_sent (field_of_either (codes "usageMetadata") response payload)
    where
      with_usage_sent : (o : Option Value) → (with_usage s o).finish_sent ≡ s.finish_sent
      with_usage_sent none = refl
      with_usage_sent (some meta) = refl

  prepend-Ends :
      (sent asked : Bool) (s : GeminiState) (vs : List Value) (r : GeminiState × List Value)
      → Quiet sent (s, vs)
      → Ends sent asked r
      → Ends sent asked (prepend vs r)
  prepend-Ends sent asked s vs (s1, ws) (p, q) (c, d) = (rw (reasons-append vs ws, p) c, d)

  error_Ends :
      (s : GeminiState) (o : Option Value) → Ends s.finish_sent false (record_error s o, [])
  unfolding reasons
  error_Ends s none = (due-false s.finish_sent, or_false s.finish_sent)
  error_Ends s (some error) = (due-false s.finish_sent, or_false s.finish_sent)

  candidate_Ends :
      (s : GeminiState) (response payload : Value) (now : ℤ) (o : Option Value)
      → Ends s.finish_sent
          (asks_candidate o)
          (on_candidate to_string to_lowercase s response payload now o)
  unfolding record_upstream_error
  candidate_Ends s response payload now none =
      error_Ends s (field_of_either (codes "error") response payload)
  candidate_Ends s response payload now (some candidate) =
      let first = announce s s.message_id response now in
      let parts = convert_parts to_string to_lowercase first.0 now (parts_of candidate) in
      let q : Quiet s.finish_sent (prepend first.1 parts) =
        then_Quiet s.finish_sent first.0 first.1 parts (announce-Quiet s s.message_id response now)
          (parts_Quiet first.0 now (parts_of candidate)) in
      prepend-Ends s.finish_sent (is_some_text (finish_reason_at candidate)) parts.0
        (first.1 ++ parts.1)
        (finish to_string to_lowercase (capture_usage parts.0 response payload) now
          (finish_reason_at candidate))
        q
        (finish-Ends (capture_usage parts.0 response payload) now (finish_reason_at candidate)
          s.finish_sent (usage_sent parts.0 response payload ∙ q.1))

-- The payloads of a stream, each with the time at which it comes.
abbrev pub Payloads : Type 0
Payloads = List (Value × ℤ)

-- The state after a stream, and its chunks.
module _ (to_string : Value → Text) (to_lowercase : Text → Text) where
  unfoldable pub final : GeminiState → Payloads → GeminiState
  final s [] = s
  final s ((payload, now) ∷ es) = final (convert_event to_string to_lowercase s payload now).0 es

  unfoldable pub outputs : GeminiState → Payloads → List Value
  outputs s [] = []
  outputs s ((payload, now) ∷ es) =
      let r = convert_event to_string to_lowercase s payload now in r.1 ++ outputs r.0 es

unfoldable pub any_asks : Payloads → Bool
any_asks [] = false
any_asks ((payload, now) ∷ es) = asks payload || any_asks es

-- A stream has one finish chunk if a payload gives a finish reason, and none otherwise.
pub outputs-one_finish :
    (to_string : Value → Text) (to_lowercase : Text → Text) (s : GeminiState) (es : Payloads)
    → length (reasons (outputs to_string to_lowercase s es)) ≡ due s.finish_sent (any_asks es)
unfolding outputs any_asks reasons convert_event
outputs-one_finish to_string to_lowercase s [] = due-false s.finish_sent
outputs-one_finish to_string to_lowercase s ((payload, now) ∷ es) =
    let r = convert_event to_string to_lowercase s payload now in
    let (c, d) =
      candidate_Ends to_string to_lowercase s (response_of payload) payload now
        (candidate_of (response_of payload)) in
    ap length (reasons-append r.1 (outputs to_string to_lowercase r.0 es))
    ∙ length-append (reasons r.1) (reasons (outputs to_string to_lowercase r.0 es))
    ∙ rw (c, outputs-one_finish to_string to_lowercase r.0 es, d)
        (add_due s.finish_sent (asks payload) (any_asks es))
