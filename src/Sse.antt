-- ===== src/Sse.antt =====
-- The SSE event decoder: crates/heterion-router-http/src/sse.rs, lines 12-145. `buffer` holds bytes
-- and `frame` the code points of a `String`. `String::from_utf8_lossy`, which leaves valid UTF-8 as
-- it is, is the parameter `lossy`. The loop of `push_bytes` takes as fuel the length of the buffer
-- and one more, since each round consumes a byte; `Sse.Drain` proves that this is enough. The slice
-- from `consumed` on is the loop's first argument.
pub mod Drain
pub mod Chunks
pub mod Bounds
pub mod Wire
pub mod RoundTrip
mod Tests
use heterion_router.Prelude.{
  ℕ, zero, suc, ◌+◌, Bool, true, false, Option, none, some, List, [], ◌∷◌, ◌++◌, length, take, drop,
  Text, codes, is_empty, starts_with, strip_prefix, ltb, ◌==◌, if◌then◌else◌,
}
use heterion_router.Prelude.Whitespace.{trim, utf8_len, join, lines}

pub record SseEvent : Type 0 where
  pub event : Option Text
  pub payload : Text

-- `MAX_SSE_EVENT_BYTES`.
unfoldable pub max_sse_event_bytes : ℕ
max_sse_event_bytes = 1048576

-- `OVERFLOW_ERROR_DATA`.
unfoldable pub overflow_error_data : Text
overflow_error_data =
    codes "{\"error\":{\"message\":\"upstream sse event exceeded the decoder limit\"}}"

pub record SseDecoder : Type 0 where
  pub buffer : List ℕ
  pub frame : Text
  pub overflowed : Bool

-- `SseDecoder::new`.
abbrev pub new : SseDecoder
new = record { buffer = []; frame = []; overflowed = false }

-- `SseDecoder::buffered`.
unfoldable pub buffered : SseDecoder → ℕ
buffered d = length d.buffer + utf8_len d.frame

-- The bytes behind a carriage return: none, or the length of the delimiter.
abbrev after_cr : List ℕ → Option (ℕ × ℕ)
after_cr [] = none
after_cr (c ∷ cs) = some (0, if c == 10 then 2 else 1)

abbrev shift : Option (ℕ × ℕ) → Option (ℕ × ℕ)
shift none = none
shift (some (index, delimiter_len)) = some (suc index, delimiter_len)

-- `next_line`: the end of the line and the length of its delimiter.
unfoldable pub next_line : List ℕ → Option (ℕ × ℕ)
next_line [] = none
next_line (c ∷ cs) =
    if c == 10 then some (0, 1) else if c == 13 then after_cr cs else shift (next_line cs)

-- What `parse_frame` has read so far.
pub record Parsed : Type 0 where
  pub event : Option Text
  pub data_lines : List Text

abbrev strip_space : Text → Text
strip_space [] = []
strip_space (c ∷ s) = if c == 32 then s else c ∷ s

abbrev parse_data : Parsed → Option Text → Parsed
parse_data p none = p
parse_data p (some payload) = record p { data_lines = p.data_lines ++ strip_space payload ∷ [] }

abbrev parse_field : Parsed → Text → Option Text → Parsed
parse_field p line none = parse_data p (strip_prefix (codes "data:") line)
parse_field p line (some name) = record p { event = some (trim name) }

-- One round of the loop in `parse_frame`.
unfoldable pub parse_line : Parsed → Text → Parsed
parse_line p line =
    if is_empty line
    then p
    else if starts_with (codes ":") line
    then p
    else parse_field p line (strip_prefix (codes "event:") line)

unfoldable pub parse_lines : Parsed → List Text → Parsed
unfolding parse_line
parse_lines p [] = p
parse_lines p (line ∷ rest) = parse_lines (parse_line p line) rest

abbrev parse_result : Option Text → List Text → Option SseEvent
parse_result none [] = none
parse_result none (s ∷ ss) = some (record { event = none; payload = join (10 ∷ []) (s ∷ ss) })
parse_result (some name) ss = some (record { event = some name; payload = join (10 ∷ []) ss })

-- `parse_frame`.
unfoldable pub parse_frame : Text → Option SseEvent
unfolding parse_lines
parse_frame frame =
    let p = parse_lines (record { event = none; data_lines = [] }) (lines frame) in
    parse_result p.event p.data_lines

-- The variables of the loop: the rest of the buffer, the frame and the events.
pub record Loop : Type 0 where
  pub rest : List ℕ
  pub frame : Text
  pub events : List SseEvent

abbrev push_event : List SseEvent → Option SseEvent → List SseEvent
push_event events none = events
push_event events (some e) = events ++ e ∷ []

-- What one line does to the frame and the events.
unfoldable pub take_line : Text → List SseEvent → Text → Text × List SseEvent
take_line frame events line =
    if is_empty line
    then ([], push_event events (parse_frame frame))
    else (frame ++ line ++ 10 ∷ [], events)

unfoldable pub overflow_event : SseEvent
overflow_event = record { event = some (codes "error"); payload = overflow_error_data }

module _ (lossy : List ℕ → Text) where
  -- The `while let` of `push_bytes`.
  unfoldable pub drain : ℕ → Loop → Loop
  drain zero l = l
  drain (suc fuel) l = elim (next_line l.rest) [
    | none ↦ l
    | some (line_end, delimiter_len) ↦
        let (frame, events) = take_line l.frame l.events (lossy (take line_end l.rest)) in
        drain fuel
          (record { rest = drop (line_end + delimiter_len) l.rest; frame = frame; events = events })
  ]

  -- The end of `push_bytes`, with the overflow check.
  unfoldable pub finish : Loop → SseDecoder × List SseEvent
  finish l =
      let d : SseDecoder = record { buffer = l.rest; frame = l.frame; overflowed = false } in
      if ltb max_sse_event_bytes (buffered d)
      then (record { buffer = []; frame = []; overflowed = true }, l.events ++ overflow_event ∷ [])
      else (d, l.events)

  -- `SseDecoder::push_bytes`.
  unfoldable pub push_bytes : SseDecoder → List ℕ → SseDecoder × List SseEvent
  push_bytes d chunk =
      let buffer = d.buffer ++ chunk in
      if d.overflowed
      then (d, [])
      else finish
          (drain (suc (length buffer)) (record { rest = buffer; frame = d.frame; events = [] }))
