-- ===== src/Repetition/Stream.antt =====
-- The guard on a stream: `StreamGuard` and `guard_stream` in
-- crates/heterion-router-gateway/src/repetition_guard.rs, lines 168-216 and 290-365, over `StreamChunk`
-- of crates/heterion-router-core/src/chat.rs, lines 286-317. The upstream is the list of what it
-- will yield; a chunk's usage is kept as its JSON.
use heterion_router.Prelude.{
  ℕ, zero, suc, ◌-◌, Bool, true, false, Option, none, some, List, [], ◌∷◌, ◌++◌, Text, codes, ltb,
  if◌then◌else◌, length, drop,
}
use heterion_router.Prelude.Whitespace.{split_whitespace}
use heterion_router.Json.{Value}
use heterion_router.Upstream.{GatewayError}
use heterion_router.Repetition.{ngram, window_words, RepetitionHit, window_repetition, hit_of}

pub record StreamChunk : Type 0 where
  pub content : Option Text
  pub reasoning : Option Text
  pub tool_calls : Option Value
  pub finish_reason : Option Text
  pub usage : Option Value
  pub usage_detail : Option Value

-- `StreamChunk::done`.
abbrev pub done : Text → StreamChunk
done reason = record {
  content = none;
  reasoning = none;
  tool_calls = none;
  finish_reason = some reason;
  usage = none;
  usage_detail = none;
}

-- `truncated_chunk`.
abbrev pub truncated_chunk : StreamChunk
truncated_chunk = done (codes "length")

pub record StreamGuard : Type 0 where
  pub words : List Text
  pub triggered : Bool

-- `StreamGuard::new`.
abbrev pub new : StreamGuard
new = record { words = []; triggered = false }

abbrev pub report : StreamGuard → Option RepetitionHit → StreamGuard × Option RepetitionHit
report g none = (g, none)
report g (some hit) = (record g { triggered = true }, some hit)

-- The part of `push` behind its loop.
abbrev pub pushed : StreamGuard → StreamGuard × Option RepetitionHit
pushed g =
    if ltb (length g.words) ngram
    then (g, none)
    else report g
        (hit_of (window_repetition (drop (length g.words - window_words) g.words)) g.words)

-- `StreamGuard::push`.
unfoldable pub push : StreamGuard → Text → StreamGuard × Option RepetitionHit
push g text =
    if g.triggered
    then (g, none)
    else pushed (record g { words = g.words ++ split_whitespace text })

pub data Item : Type 0 where
  chunk : StreamChunk → Item
  error : GatewayError → Item

pub record Guarded : Type 0 where
  pub stream : List Item
  pub content : StreamGuard
  pub reasoning : StreamGuard
  pub terminal : Option StreamChunk
  pub finished : Bool

-- The state that `guard_stream` starts with.
abbrev pub guarded : List Item → Guarded
guarded stream = record {
  stream = stream;
  content = new;
  reasoning = new;
  terminal = none;
  finished = false;
}

abbrev pub as_reasoning : Option RepetitionHit → Option RepetitionHit
as_reasoning none = none
as_reasoning (some found) = some (record found { source = codes "reasoning" })

abbrev pub push_some : StreamGuard → Option Text → StreamGuard × Option RepetitionHit
push_some g none = (g, none)
push_some g (some text) = push g text

-- The reasoning is looked at when the content is no loop.
abbrev pub watch_reasoning :
    Guarded → StreamChunk → Option RepetitionHit → Guarded × Option RepetitionHit
watch_reasoning s c (some hit) = (s, some hit)
watch_reasoning s c none =
    let (g, found) = push_some s.reasoning c.reasoning in
    (record s { reasoning = g }, as_reasoning found)

abbrev pub watch : Guarded → StreamChunk → Guarded × Option RepetitionHit
watch s c =
    let (g, hit) = push_some s.content c.content in watch_reasoning (record s { content = g }) c hit

-- What a poll comes to: an item and the state behind it, the end of the stream, or, with its fuel
-- spent, nothing yet.
pub data Polled : Type 0 where
  unfinished end_of_stream : Polled
  yielded : Item → Guarded → Polled

abbrev pub after_watch : (Guarded → Polled) → StreamChunk → Guarded × Option RepetitionHit → Polled
after_watch again c (s, none) = yielded (chunk c) s
after_watch again c (s, some hit) = again (record s { terminal = some truncated_chunk })

abbrev pub pull : (Guarded → Polled) → Guarded → List Item → Polled
pull again s [] = end_of_stream
pull again s (error e ∷ rest) = yielded (error e) (record s { stream = rest })
pull again s (chunk c ∷ rest) = after_watch again c (watch (record s { stream = rest }) c)

abbrev pub take_terminal : (Guarded → Polled) → Guarded → Option StreamChunk → Polled
take_terminal again s none = pull again s s.stream
take_terminal again s (some c) = yielded (chunk c) (record s { terminal = none; finished = true })

-- One round of the loop.
abbrev pub turn : (Guarded → Polled) → Guarded → Polled
turn again s = if s.finished then end_of_stream else take_terminal again s s.terminal

-- The loop of one poll, on fuel.
unfoldable pub poll : ℕ → Guarded → Polled
poll zero s = unfinished
poll (suc fuel) s = turn (poll fuel) s

abbrev pub next_items : (Guarded → List Item) → Polled → List Item
next_items rest unfinished = []
next_items rest end_of_stream = []
next_items rest (yielded item s) = item ∷ rest s

-- What the client reads in so many polls; a poll takes two rounds at most.
unfoldable pub outputs : ℕ → Guarded → List Item
outputs zero s = []
outputs (suc polls) s = next_items (outputs polls) (poll 2 s)
