-- ===== src/Translate/Gemini/Numbering.antt =====
-- The indexes of the tool calls that a stream of the Gemini adapter carries.
use heterion_router.Prelude.{
  ℕ, ◌+◌, ◌^◌, ◌<◌, Bool, true, false, Option, none, some, List, [], ◌∷◌, ◌++◌, Text, codes,
  text_eq, is_empty, length, length-append, if◌then◌else◌, ◌≡◌, refl, ◌∙◌, ap, arith,
}
use mathlib.Core.Path.{subst}
use heterion_router.Json.{
  Value, Fields, object, fields, items, get_field, insert_field, get, as_u64, as_str, as_bool,
  and_then, unwrap_or,
}
use heterion_router.Translate.Int.{ℤ, wrap32}
use heterion_router.Translate.Chunk.{announce_role, chatcmpl_id, chunk_model, insert_text}
use heterion_router.Translate.Reader.{call_index, call_of_delta, indexes, count_from}
use heterion_router.Translate.Counting.{joined, indexes-append}
use heterion_router.Translate.Envelope.{call_index-stream_chunk, call_index-attach}
use heterion_router.Translate.Gemini.{
  GeminiState, role_chunk, delta_chunk, tool_chunk, finish_chunk, field_of_either, with_usage,
  usage_value, capture_usage,
}
use heterion_router.Translate.Gemini.Events.{
  candidate_of, record_error, record_upstream_error, identified, announce, counted, tool_call, sign,
  thought_signature, calls_of, send_call, one_out, part_of, convert_part, prepend, convert_parts,
  parts_of, finish, final_reason, finish_reason_at, on_candidate, response_of, convert_event,
}
use heterion_router.Translate.Gemini.Finish.{Payloads, final, outputs}

call_of-role :
    (delta : Fields) (sent : Bool)
    → (announce_role Fields.end sent).0 ≡ delta
    → call_of_delta (object delta) ≡ none
unfolding announce_role get_field text_eq insert_field
call_of-role delta true e = rw⁻¹ e refl
call_of-role delta false e = rw⁻¹ e refl

index-sign :
    (o : Option Text) (v : Value) (fs : Fields)
    → get_field (codes "index") (sign o (Fields.field (codes "index") v fs)) ≡ some v
unfolding get_field insert_field text_eq
index-sign none v fs = refl
index-sign (some signature) v fs = refl

-- The state's counter stays and no call is sent, or calls with the next numbers are sent and the
-- counter moves behind them. It is below 2^32 as long as `room` calls more are.
abbrev Numbered : ℕ → GeminiState × List Value → Type 0
Numbered n (s, vs) =
    n + length (indexes vs) < 2 ^ 32
    → (indexes vs ≡ count_from n (length (indexes vs)))
      × (s.tool_call_index ≡ n + length (indexes vs))

then_Numbered :
    (n : ℕ) (s : GeminiState) (vs : List Value) (r : GeminiState × List Value)
    → Numbered n (s, vs)
    → Numbered s.tool_call_index r
    → Numbered n (prepend vs r)
then_Numbered n s vs (s1, ws) h h1 k =
    let e = indexes-append vs ws in
    let l : length (indexes (vs ++ ws)) ≡ length (indexes vs) + length (indexes ws) =
      ap length e ∙ length-append (indexes vs) (indexes ws) in
    let (p, c) = h (omega (arith, k, l)) in
    let (q, d) = h1 (omega (arith, k, l, c)) in
    rw e (joined n s.tool_call_index s1.tool_call_index (indexes vs) (indexes ws) p c q d)

module _ (to_string : Value → Text) (to_lowercase : Text → Text) where
  call_of-tool :
      (s : GeminiState) (part call : Value) (name : Text) (sent : Bool)
      → call_of_delta (
          object (
            insert_field
              (codes "tool_calls")
              (calls_of to_string to_lowercase s part call name)
              (announce_role Fields.end sent).0))
        ≡ some s.tool_call_index
  unfolding announce_role get_field text_eq insert_field items tool_call fields
  call_of-tool s part call name true =
      ap (λ o. and_then o as_u64) (index-sign (thought_signature part) _ _)
  call_of-tool s part call name false =
      ap (λ o. and_then o as_u64) (index-sign (thought_signature part) _ _)

  -- Nothing sent is a tool call.
  still :
      (n : ℕ) (s : GeminiState) (vs : List Value)
      → indexes vs ≡ []
      → s.tool_call_index ≡ n
      → Numbered n (s, vs)
  unfolding count_from
  still n s vs e c k = rw e (refl, omega (arith, c))

  one_still :
      (s : GeminiState) (v : Value) → call_index v ≡ none → Numbered s.tool_call_index (s, v ∷ [])
  unfolding indexes
  one_still s v e = still s.tool_call_index s (v ∷ []) (rw e refl) refl

  first_Numbered :
      (s : GeminiState) (now : ℤ) → Numbered s.tool_call_index (one_out (role_chunk s now))
  unfolding role_chunk indexes
  first_Numbered s now =
      still s.tool_call_index (role_chunk s now).0 ((role_chunk s now).1 ∷ [])
        (rw
          (
            call_index-stream_chunk _ now _ (object (announce_role Fields.end s.role_sent).0),
            call_of-role _ s.role_sent refl,
          )
          refl)
        refl

  announce-Numbered :
      (s : GeminiState) (id : Option Text) (response : Value) (now : ℤ)
      → Numbered s.tool_call_index (announce s id response now)
  unfolding indexes
  announce-Numbered s (some id) response now = still s.tool_call_index s [] refl refl
  announce-Numbered s none response now = first_Numbered (identified s response now) now

  one_call :
      (n : ℕ) (s : GeminiState) (v : Value)
      → call_index v ≡ some n
      → s.tool_call_index ≡ wrap32 (n + 1)
      → Numbered n (s, v ∷ [])
  unfolding indexes count_from
  one_call n s v e c k =
      let l : indexes (v ∷ []) ≡ n ∷ [] = rw e refl in
      let room : n + 1 < 2 ^ 32 = omega (arith, k, ap length l) in
      rw l (refl, omega (arith, c, room))

  tool_Numbered :
      (s : GeminiState) (now : ℤ) (part call : Value) (name : Text)
      → Numbered s.tool_call_index
          (one_out (tool_chunk (counted s) now (calls_of to_string to_lowercase s part call name)))
  unfolding tool_chunk
  tool_Numbered s now part call name =
      let e =
        call_index-stream_chunk (chatcmpl_id s.message_id) now (chunk_model s.model) (
          object (
            insert_field (codes "tool_calls") (calls_of to_string to_lowercase s part call name)
              (announce_role Fields.end s.role_sent).0))
        ∙ call_of-tool s part call name s.role_sent in
      one_call s.tool_call_index
        (tool_chunk (counted s) now (calls_of to_string to_lowercase s part call name)).0 _ e refl

  if_Numbered :
      (n : ℕ) (b : Bool) (x y : GeminiState × List Value)
      → Numbered n x
      → Numbered n y
      → Numbered n (if b then x else y)
  if_Numbered n true x y hx hy = hx
  if_Numbered n false x y hx hy = hy

  text_Numbered :
      (s : GeminiState) (now : ℤ) (text : Text) (thought : Bool)
      → Numbered s.tool_call_index (
          if thought
          then (s, delta_chunk s now none (some text) ∷ [])
          else (s, delta_chunk s now (some text) none ∷ []))
  unfolding delta_chunk insert_text insert_field get_field text_eq
  text_Numbered s now text true =
      one_still s (delta_chunk s now none (some text)) (call_index-stream_chunk _ now _ _)
  text_Numbered s now text false =
      one_still s (delta_chunk s now (some text) none) (call_index-stream_chunk _ now _ _)

  nothing_Numbered : (s : GeminiState) → Numbered s.tool_call_index (s, [])
  unfolding indexes
  nothing_Numbered s = still s.tool_call_index s [] refl refl

  part_Numbered :
      (s : GeminiState) (now : ℤ) (part : Value) (call : Option Value)
      → Numbered s.tool_call_index (part_of to_string to_lowercase s now part call)
  part_Numbered s now part (some call) =
      let name = unwrap_or (and_then (get (codes "name") call) as_str) [] in
      if_Numbered s.tool_call_index (is_empty name) (s, [])
        (send_call to_string to_lowercase s now part call name) (nothing_Numbered s)
        (tool_Numbered s now part call name)
  part_Numbered s now part none =
      let text = unwrap_or (and_then (get (codes "text") part) as_str) [] in
      let thought = unwrap_or (and_then (get (codes "thought") part) as_bool) false in
      if_Numbered s.tool_call_index (is_empty text) (s, [])
        (if thought
          then (s, delta_chunk s now none (some text) ∷ [])
          else (s, delta_chunk s now (some text) none ∷ []))
        (nothing_Numbered s) (text_Numbered s now text thought)

  parts_Numbered :
      (s : GeminiState) (now : ℤ) (parts : List Value)
      → Numbered s.tool_call_index (convert_parts to_string to_lowercase s now parts)
  unfolding convert_parts
  parts_Numbered s now [] = nothing_Numbered s
  parts_Numbered s now (part ∷ parts) =
      let r = convert_part to_string to_lowercase s now part in
      then_Numbered s.tool_call_index r.0 r.1 (convert_parts to_string to_lowercase r.0 now parts)
        (part_Numbered s now part (get (codes "functionCall") part)) (parts_Numbered r.0 now parts)

  finish-Numbered :
      (s : GeminiState) (now : ℤ) (o : Option Text)
      → Numbered s.tool_call_index (finish to_string to_lowercase s now o)
  unfolding finish_chunk
  finish-Numbered s now none = nothing_Numbered s
  finish-Numbered s now (some reason) =
      if_Numbered s.tool_call_index s.finish_sent (s, []) _ (nothing_Numbered s)
        (one_still (record s { finish_sent = true })
          (finish_chunk (record s { finish_sent = true }) now
            (final_reason to_string to_lowercase s reason))
          (call_index-attach _ now _ (final_reason to_string to_lowercase s reason)
            (usage_value s.usage)))

  with_usage_index :
      (s : GeminiState) (o : Option Value) → (with_usage s o).tool_call_index ≡ s.tool_call_index
  with_usage_index s none = refl
  with_usage_index s (some meta) = refl

  record_error_index :
      (s : GeminiState) (o : Option Value) → (record_error s o).tool_call_index ≡ s.tool_call_index
  record_error_index s none = refl
  record_error_index s (some error) = refl

  event_Numbered :
      (s : GeminiState) (response payload : Value) (now : ℤ) (o : Option Value)
      → Numbered s.tool_call_index (on_candidate to_string to_lowercase s response payload now o)
  unfolding record_upstream_error indexes capture_usage
  event_Numbered s response payload now none =
      still s.tool_call_index (record_upstream_error s response payload) [] refl
        (record_error_index s (field_of_either (codes "error") response payload))
  event_Numbered s response payload now (some candidate) =
      let first = announce s s.message_id response now in
      let parts = convert_parts to_string to_lowercase first.0 now (parts_of candidate) in
      let meta = field_of_either (codes "usageMetadata") response payload in
      then_Numbered s.tool_call_index parts.0 (first.1 ++ parts.1)
        (finish to_string to_lowercase (with_usage parts.0 meta) now (finish_reason_at candidate))
        (then_Numbered s.tool_call_index first.0 first.1 parts
          (announce-Numbered s s.message_id response now)
          (parts_Numbered first.0 now (parts_of candidate)))
        (subst
          (λ n. Numbered n (
            finish to_string to_lowercase (with_usage parts.0 meta) now
              (finish_reason_at candidate)))
          (with_usage_index parts.0 meta)
          (finish-Numbered (with_usage parts.0 meta) now (finish_reason_at candidate)))

  stream_Numbered :
      (s : GeminiState) (es : Payloads)
      → Numbered s.tool_call_index
          (final to_string to_lowercase s es, outputs to_string to_lowercase s es)
  unfolding final outputs convert_event
  stream_Numbered s [] = nothing_Numbered s
  stream_Numbered s ((payload, now) ∷ es) =
      let r = convert_event to_string to_lowercase s payload now in
      then_Numbered s.tool_call_index r.0 r.1
        (final to_string to_lowercase r.0 es, outputs to_string to_lowercase r.0 es)
        (event_Numbered s (response_of payload) payload now (candidate_of (response_of payload)))
        (stream_Numbered r.0 es)

-- The tool calls of a stream are numbered without a gap, from the state's counter on, in the order in
-- which they are sent, across payloads, while the counter stays below 2^32.
pub outputs-numbered :
    (to_string : Value → Text) (to_lowercase : Text → Text) (s : GeminiState) (es : Payloads)
    → s.tool_call_index + length (indexes (outputs to_string to_lowercase s es)) < 2 ^ 32
    → indexes (outputs to_string to_lowercase s es)
      ≡ count_from s.tool_call_index (length (indexes (outputs to_string to_lowercase s es)))
outputs-numbered to_string to_lowercase s es room =
    (stream_Numbered to_string to_lowercase s es room).0
