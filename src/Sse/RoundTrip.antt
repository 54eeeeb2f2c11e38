-- ===== src/Sse/RoundTrip.antt =====
-- Events written as the SSE format prescribes come back from the decoder.
use mathlib.Core.List.{append-nil, append_assoc}
use heterion_router.Prelude.{
  ℕ, suc, ◌+◌, ◌<◌, ◌≡◌, ◌≢◌, refl, sym, ◌∙◌, ap, some, List, [], ◌∷◌, ◌++◌, length, length-drop,
  map, Text, arith, take, drop,
}
use native.Mathlib.Numerals.{add-one}
use heterion_router.Prelude.Whitespace.{utf8_len, OneLine}
use heterion_router.Sse.{
  SseEvent, Loop, new, next_line, take_line, drain, finish, push_bytes, push_event, parse_frame,
  max_sse_event_bytes, buffered,
}
use heterion_router.Sse.Drain.{next_loop, drain_line, drain_fuel, drain_finished, next_line_bounds}
use heterion_router.Sse.Chunks.{push_open}
use heterion_router.Sse.Wire.{
  All, Plain, IsField, unlines, Message, IsMessage, wire_lines, encode, encode_all, event_of,
  wire_lines-IsField, parse_frame-wire,
}

next_line_one : (l rest : List ℕ) → OneLine l → next_line (l ++ 10 ∷ rest) ≡ some (length l, 1)
unfolding next_line
next_line_one [] rest h = refl
next_line_one (c ∷ l) rest h = ground (arith, next_line_one l rest h.2)

take_front : (l rest : List ℕ) → take (length l) (l ++ rest) ≡ l
take_front [] rest = refl
take_front (c ∷ l) rest = ap (◌∷◌ c) (take_front l rest)

drop_behind : (l rest : List ℕ) (c : ℕ) → drop (suc (length l)) (l ++ c ∷ rest) ≡ rest
drop_behind [] rest c = refl
drop_behind (d ∷ l) rest c = drop_behind l rest c

take_line_text :
    (l frame : Text) (events : List SseEvent)
    → l ≢ []
    → take_line frame events l ≡ (frame ++ l ++ 10 ∷ [], events)
unfolding take_line
take_line_text [] frame events h = absurd (h refl)
take_line_text (c ∷ l) frame events h = refl

take_line_blank :
    (frame : Text) (events : List SseEvent)
    → take_line frame events [] ≡ ([], push_event events (parse_frame frame))
unfolding take_line
take_line_blank frame events = refl

-- Of `lossy` it is assumed that it leaves ASCII bytes as they are.
module _ (lossy : List ℕ → Text) (ascii : (s : List ℕ) → All (λ c. c < 128) s → lossy s ≡ s) where
  -- The loop with fuel enough for its buffer.
  abbrev whole : Loop → Loop
  whole l = drain lossy (suc (length l.rest)) l

  whole_next :
      (l : Loop) (i n : ℕ)
      → next_line l.rest ≡ some (i, n)
      → whole l ≡ whole (next_loop lossy l i n)
  whole_next l i n e =
      let l' = next_loop lossy l i n in
      let b = next_line_bounds l.rest i n e in
      let c = length-drop (i + n) l.rest in
      drain_line lossy (length l.rest) l i n e
      ∙ drain_fuel lossy (length l.rest) (suc (length l'.rest)) l' (omega (arith, b, c))
          (omega arith)

  whole_line :
      (l rest : List ℕ) (frame : Text) (events : List SseEvent)
      → Plain l
      → l ≢ []
      → whole (record { rest = l ++ 10 ∷ rest; frame = frame; events = events })
        ≡ whole (record { rest = rest; frame = frame ++ l ++ 10 ∷ []; events = events })
  whole_line l rest frame events h n =
      whole_next (record { rest = l ++ 10 ∷ rest; frame = frame; events = events }) (length l) 1
        (next_line_one l rest h.0)
      ∙ ap whole next
    where
      next :
          next_loop lossy
            (record { rest = l ++ 10 ∷ rest; frame = frame; events = events })
            (length l)
            1
          ≡ record { rest = rest; frame = frame ++ l ++ 10 ∷ []; events = events }
      next = rw (
        add-one,
        drop_behind l rest 10,
        take_front l (10 ∷ rest),
        ascii l h.1,
        take_line_text l frame events n,
      )

  whole_blank :
      (rest : List ℕ) (frame : Text) (events : List SseEvent)
      → whole (record { rest = 10 ∷ rest; frame = frame; events = events })
        ≡ whole (record { rest = rest; frame = []; events = push_event events (parse_frame frame) })
  whole_blank rest frame events =
      whole_next (record { rest = 10 ∷ rest; frame = frame; events = events }) 0 1
        (unfold next_line in refl)
      ∙ ap whole next
    where
      next :
          next_loop lossy (record { rest = 10 ∷ rest; frame = frame; events = events }) 0 1
          ≡ record { rest = rest; frame = []; events = push_event events (parse_frame frame) }
      next = rw (ascii [] tt, take_line_blank frame events)

  whole_lines :
      (ls : List Text) (rest : List ℕ) (frame : Text) (events : List SseEvent)
      → All IsField ls
      → whole (record { rest = unlines ls ++ rest; frame = frame; events = events })
        ≡ whole (record { rest = rest; frame = frame ++ unlines ls; events = events })
  whole_lines [] rest frame events h = rw append-nil
  whole_lines (l ∷ ls) rest frame events h =
      ap (λ b. whole (record { rest = b; frame = frame; events = events }))
        (append_assoc l (10 ∷ unlines ls) rest)
      ∙ whole_line l (unlines ls ++ rest) frame events h.0.0 h.0.1
      ∙ whole_lines ls rest (frame ++ l ++ 10 ∷ []) events h.1
      ∙ ap (λ b. whole (record { rest = rest; frame = b; events = events }))
          (append_assoc (frame ++ l) (10 ∷ []) (unlines ls)
            ∙ append_assoc frame l (10 ∷ unlines ls))

  whole_message :
      (m : Message) (rest : List ℕ) (events : List SseEvent)
      → IsMessage m
      → whole (record { rest = encode m ++ rest; frame = []; events = events })
        ≡ whole (record { rest = rest; frame = []; events = events ++ event_of m ∷ [] })
  whole_message m rest events h =
      let wire = wire_lines m in
      ap (λ b. whole (record { rest = b; frame = []; events = events }))
        (append_assoc (unlines wire) (10 ∷ []) rest)
      ∙ whole_lines wire (10 ∷ rest) [] events
          (wire_lines-IsField m.name m.data_lines h.plain_name h.plain_data)
      ∙ whole_blank rest (unlines wire) events
      ∙ ap (λ r. whole (record { rest = rest; frame = []; events = push_event events r }))
          (parse_frame-wire m h)

  whole_messages :
      (ms : List Message) (events : List SseEvent)
      → All IsMessage ms
      → whole (record { rest = encode_all ms; frame = []; events = events })
        ≡ record { rest = []; frame = []; events = events ++ map event_of ms }
  whole_messages [] events h =
      drain_finished lossy 1 (record { rest = []; frame = []; events = events })
        (unfold next_line in refl)
      ∙ ap (λ es. record { rest = []; frame = []; events = es }) (sym (append-nil events))
  whole_messages (m ∷ ms) events h =
      whole_message m (encode_all ms) events h.0
      ∙ whole_messages ms (events ++ event_of m ∷ []) h.1
      ∙ ap (λ es. record { rest = []; frame = []; events = es })
          (append_assoc events (event_of m ∷ []) (map event_of ms))

  -- Messages come back, one event for each in their order, and the decoder is left as it was, when
  -- they are written in this form: a line for the event's name, which may be left out, then the lines of
  -- the data, one line at least; a space behind the colon of a field, a single LF behind a line, and
  -- a blank line behind a message. The name and the data are one-line ASCII text, the name has no
  -- white space at its ends, and the reading of bytes as text leaves ASCII as it is. Other text in
  -- UTF-8, CR and CRLF, and fields without the space, which the format allows as well, are not covered.
  pub push-encode_all :
      (ms : List Message)
      → All IsMessage ms
      → push_bytes lossy new (encode_all ms) ≡ (new, map event_of ms)
  push-encode_all ms h =
      push_open lossy new (encode_all ms) refl
      ∙ ap (finish lossy) (whole_messages ms [] h)
      ∙ unfold finish buffered max_sse_event_bytes utf8_len in refl
