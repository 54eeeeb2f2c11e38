-- ===== src/Translate/Claude/Calls.antt =====
-- A tool call of Claude, fragment by fragment, and the one that the client gets.
use heterion_router.Prelude.{
  Bool, true, false, not, Option, none, some, List, [], ◌∷◌, ◌++◌, Text, codes, is_empty,
  if◌then◌else◌, ◌≡◌, refl, sym, ◌∙◌, ap, arith,
}
use mathlib.Core.List.{append-nil, append_assoc}
use heterion_router.Json.{Value, get, unwrap_or}
use heterion_router.Translate.Int.{ℤ, int_eq, int_eq_refl, int_eq_comm, eq_of_int_eq}
use heterion_router.Translate.Claude.{ToolCallAcc, ClaudeState, Converted, emit, tool_call_chunk}
use heterion_router.Translate.Claude.Chunks.{call-IsCall}
use heterion_router.Translate.Reader.{IsCall}
use heterion_router.Translate.Claude.Tools.{take_acc, extend, push_at}
use heterion_router.Translate.Claude.Events.{
  EventKind, DeltaKind, text_delta, thinking_delta, input_json_delta, other_delta, at_message_start,
  at_block_start, at_block_stop, at_block_delta, at_message_delta, at_message_stop, at_other,
  str_at, is_tool_use, index_of, new_acc, delta_kind, delta_text, push_json, on_delta, on_event,
  event_kind, message_start, content_block_start, content_block_stop, content_block_delta,
  message_delta, message_stop, on_stop_reason, merge_some, emit_call, convert_event,
}
use heterion_router.Translate.Claude.Stream.{Incoming, event_type, translate, final}
use heterion_router.Translate.Claude.Blocks.{
  of_block, of_block-append, take_acc-none, of_block-none, take_acc-only, take_acc-other, left_over,
  push_at-only, push_at-other,
}
use heterion_router.Translate.Claude.Fragments.{
  is_index, is_some_index, fragment_index, delta_leaves, kind_leaves, all_leave_open,
  delta_fragment, kind_fragment, fragments, and_left, and_right,
}

module _ (i : ℤ) (acc : ToolCallAcc) where
  -- The block has one accumulator, `acc` with `text` behind its arguments.
  abbrev Open : Text → ClaudeState → Type 0
  Open text s = of_block i s.tools ≡ extend text acc ∷ []

  abbrev Opens : Text → ClaudeState × Converted → Type 0
  Opens text r = Open text r.0

  on_push :
      (s : ClaudeState) (text fragment : Text) (j : ℤ) (b : Bool)
      → int_eq i j ≡ b
      → Open text s
      → of_block i (unwrap_or (push_at j fragment s.tools) s.tools)
        ≡ extend (text ++ (if b then fragment else [])) acc ∷ []
  on_push s text fragment j true e h =
      let p : i ≡ j = eq_of_int_eq i j e in
      let (after, q, r) = push_at-only i fragment (extend text acc) s.tools h in
      rw (sym p, q)
        (r ∙ ap (λ a. record acc { arguments = a } ∷ []) (append_assoc acc.arguments text fragment))
  on_push s text fragment j false e h = rw append-nil (push_at-other i j fragment s.tools e ∙ h)

  on_finish :
      (s : ClaudeState) (text : Text) (now : ℤ) (reason : Option Text)
      → Open text s
      → Opens text (on_stop_reason s now reason)
  on_finish s text now none h = h
  on_finish s text now (some reason) h = h

  on_merge :
      (s : ClaudeState) (text : Text) (usage : Option Value)
      → Open text s
      → Open text (merge_some s usage)
  on_merge s text none h = h
  on_merge s text (some usage) h = h

  if_same :
      (s : ClaudeState) (text : Text) (b : Bool) (x y : ClaudeState × Converted)
      → Opens text x
      → Opens text y
      → Opens text (if b then x else y)
  if_same s text true x y hx hy = hx
  if_same s text false x y hx hy = hy

  on_call :
      (s : ClaudeState) (text : Text) (now : ℤ) (o : Option (ToolCallAcc × List ToolCallAcc))
      → of_block i (left_over s.tools o) ≡ extend text acc ∷ []
      → Opens text (emit_call s now o)
  on_call s text now none h = h
  on_call s text now (some (a, rest)) h = h

  same : (s : ClaudeState) (text : Text) → Open text s → Open (text ++ []) s
  same s text h = rw append-nil h

  on_empty :
      (s : ClaudeState) (text : Text) (b : Bool)
      → Open text s
      → Open (text ++ (if b then [] else [])) s
  on_empty s text true h = same s text h
  on_empty s text false h = same s text h

  on_json :
      (s : ClaudeState) (text fragment : Text) (o : Option ℤ)
      → is_some_index o ≡ true
      → Open text s
      → Opens (text ++ (if is_index i o then fragment else [])) (push_json s o fragment)
  on_json s text fragment none n h = cc n
  on_json s text [] (some j) n h = on_empty s text (int_eq i j) h
  on_json s text (c ∷ fragment) (some j) n h = on_push s text (c ∷ fragment) j (int_eq i j) refl h

  delta_Opens :
      (k : DeltaKind) (s : ClaudeState) (text : Text) (payload : Value) (now : ℤ)
      → delta_leaves k payload ≡ true
      → Open text s
      → Opens (text ++ delta_fragment k i payload) (on_delta k s payload now)
  delta_Opens text_delta s text payload now n h =
      if_same s (text ++ []) (is_empty (delta_text (codes "text") payload)) _ _ (same s text h)
        (same s text h)
  delta_Opens thinking_delta s text payload now n h =
      if_same s (text ++ []) (is_empty (delta_text (codes "thinking") payload)) _ _ (same s text h)
        (same s text h)
  delta_Opens input_json_delta s text payload now n h =
      on_json s text (delta_text (codes "partial_json") payload) (fragment_index payload) n h
  delta_Opens other_delta s text payload now n h = same s text h

  other_acc : (a : ToolCallAcc) → not (int_eq i a.block_index) ≡ true → of_block i (a ∷ []) ≡ []
  unfolding of_block
  other_acc a n = ground (arith, int_eq_comm i a.block_index)

  on_acc :
      (s : ClaudeState) (text : Text) (a : ToolCallAcc)
      → not (int_eq i a.block_index) ≡ true
      → Open text s
      → of_block i (s.tools ++ a ∷ []) ≡ extend text acc ∷ []
  on_acc s text a n h = of_block-append i s.tools (a ∷ []) ∙ rw (h, other_acc a n) refl

  eq_false_of_not : (b : Bool) → not b ≡ true → b ≡ false
  eq_false_of_not true h = cc h
  eq_false_of_not false h = refl

  kind_Opens :
      (k : EventKind) (s : ClaudeState) (text : Text) (payload : Value) (now : ℤ)
      → kind_leaves k i payload ≡ true
      → Open text s
      → Opens (text ++ kind_fragment k i payload) (on_event k s payload now)
  unfolding message_start content_block_start content_block_stop content_block_delta message_delta
      message_stop
  kind_Opens at_message_start s text payload now n h = same s text h
  kind_Opens at_block_start s text payload now n h =
      if_same s (text ++ []) (is_tool_use (str_at (codes "content_block") (codes "type") payload)) _
        _ (rw append-nil (on_acc s text (new_acc payload) n h)) (same s text h)
  kind_Opens at_block_stop s text payload now n h = rw append-nil (
      on_call s text now (take_acc (index_of payload) s.tools) (
        take_acc-other i (index_of payload) s.tools
          (eq_false_of_not (int_eq i (index_of payload)) n)
        ∙ h))
  kind_Opens at_block_delta s text payload now n h =
      delta_Opens (delta_kind (delta_text (codes "type") payload)) s text payload now n h
  kind_Opens at_message_delta s text payload now n h =
      let after = merge_some s (get (codes "usage") payload) in
      on_finish after (text ++ []) now (str_at (codes "delta") (codes "stop_reason") payload)
        (same after text (on_merge s text (get (codes "usage") payload) h))
  kind_Opens at_message_stop s text payload now n h =
      if_same s (text ++ []) s.finish_sent _ _ (same s text h) (same s text h)
  kind_Opens at_other s text payload now n h = same s text h

  stream_Opens :
      (s : ClaudeState) (text : Text) (es : List Incoming)
      → all_leave_open i es ≡ true
      → Open text s
      → Open (text ++ fragments i es) (final s es)
  unfolding all_leave_open fragments final convert_event
  stream_Opens s text [] n h = same s text h
  stream_Opens s text (e ∷ es) n h =
      rw
        (sym (
          append_assoc text (kind_fragment (event_kind (event_type e)) i e.payload)
            (fragments i es)))
        (stream_Opens (translate s e).0
          (text ++ kind_fragment (event_kind (event_type e)) i e.payload) es (and_right _ _ n)
          (kind_Opens (event_kind (event_type e)) s text e.payload e.now (and_left _ _ n) h))

own_acc : (acc : ToolCallAcc) → of_block acc.block_index (acc ∷ []) ≡ acc ∷ []
unfolding of_block
own_acc acc = ground (arith, int_eq_refl acc.block_index)

started_Open :
    (s : ClaudeState) (start : Incoming)
    → take_acc (index_of start.payload) s.tools ≡ none
    → event_kind (event_type start) ≡ at_block_start
    → is_tool_use (str_at (codes "content_block") (codes "type") start.payload) ≡ true
    → Open (index_of start.payload) (new_acc start.payload) [] (translate s start).0
unfolding convert_event content_block_start
started_Open s start free k t =
    rw (k, t)
      (of_block-append (index_of start.payload) s.tools (new_acc start.payload ∷ [])
        ∙ rw (of_block-none (index_of start.payload) s.tools free)
            (own_acc (new_acc start.payload)))

stopped :
    (s : ClaudeState) (i : ℤ) (acc : ToolCallAcc) (stop : Incoming)
    → event_kind (event_type stop) ≡ at_block_stop
    → index_of stop.payload ≡ i
    → of_block i s.tools ≡ acc ∷ []
    → ((translate s stop).1 ≡ emit (tool_call_chunk s stop.now s.next_tool_index acc))
      × (take_acc i (translate s stop).0.tools ≡ none)
unfolding convert_event content_block_stop
stopped s i acc stop k e h =
    let (rest, p, q) = take_acc-only i acc s.tools h in rw (k, e, p) (refl, take_acc-none i rest q)

-- What a stop sends and leaves: a client reads the whole call in the chunk, and no accumulator of the
-- block's index is left.
pub record SendsWhole (before : ClaudeState) (start stop : Incoming) (arguments : Text)
    : Type 0 where
  pub sent : Value
  pub sends : (translate before stop).1 ≡ emit sent
  pub whole :
      IsCall sent before.next_tool_index
        (unwrap_or (str_at (codes "content_block") (codes "id") start.payload) [])
        (unwrap_or (str_at (codes "content_block") (codes "name") start.payload) [])
        arguments
  pub none_left : take_acc (index_of start.payload) (translate before stop).0.tools ≡ none

-- Let no accumulator have the index of a tool block that starts, let no event until its stop start
-- or stop a block of that index, and let each fragment name its block. Then the stop sends one chunk,
-- in which a client reads the next free index, the id and the name of the start (empty where
-- it has none) and, as the arguments, all the fragments for the block in order, whatever else came;
-- and no accumulator of that index is left.
pub content_block_stop-whole :
    (s : ClaudeState) (start stop : Incoming) (es : List Incoming)
    → take_acc (index_of start.payload) s.tools ≡ none
    → event_kind (event_type start) ≡ at_block_start
    → is_tool_use (str_at (codes "content_block") (codes "type") start.payload) ≡ true
    → all_leave_open (index_of start.payload) es ≡ true
    → event_kind (event_type stop) ≡ at_block_stop
    → index_of stop.payload ≡ index_of start.payload
    → SendsWhole (final (translate s start).0 es) start stop (fragments (index_of start.payload) es)
content_block_stop-whole s start stop es free k t n k2 same_index =
    let i = index_of start.payload in
    let first : Open i (new_acc start.payload) [] (translate s start).0 =
      started_Open s start free k t in
    let before = final (translate s start).0 es in
    let acc = extend (fragments i es) (new_acc start.payload) in
    let (sends, none_left) =
      stopped before i acc stop k2 same_index
        (stream_Opens i (new_acc start.payload) (translate s start).0 [] es n first) in
    record {
      sent = tool_call_chunk before stop.now before.next_tool_index acc;
      sends = sends;
      whole = call-IsCall before stop.now before.next_tool_index acc;
      none_left = none_left;
    }
