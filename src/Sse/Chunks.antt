-- ===== src/Sse/Chunks.antt =====
-- The events do not depend on how the network cuts the stream into chunks.
use mathlib.Core.List.{append-nil, append_assoc}
use heterion_router.Prelude.{
  ℕ, suc, ◌≡◌, refl, sym, ◌∙◌, ap, false, List, [], ◌∷◌, ◌++◌, length, length-append, Text, arith,
}
use heterion_router.Sse.{SseEvent, SseDecoder, Loop, drain, finish, push_bytes, overflow_event}
use heterion_router.Sse.Drain.{add_events, drain-append, drain-events, drain_fuel, drain_shorter}

-- Chunk after chunk, with the events of all of them.
unfoldable pub push_all : (List ℕ → Text) → SseDecoder → List (List ℕ) → SseDecoder × List SseEvent
push_all lossy d [] = (d, [])
push_all lossy d (chunk ∷ chunks) =
    let (d', events) = push_bytes lossy d chunk in
    let (d'', later) = push_all lossy d' chunks in (d'', events ++ later)

abbrev pub concat : List (List ℕ) → List ℕ
concat [] = []
concat (c ∷ cs) = c ++ concat cs

module _ (lossy : List ℕ → Text) where
  finish-add_events :
      (es : List SseEvent) (l : Loop)
      → finish lossy (add_events es l) ≡ ((finish lossy l).0, es ++ (finish lossy l).1)
  unfolding finish
  finish-add_events es l = ground (arith, append_assoc es l.events (overflow_event ∷ []))

  -- The loop that a push of `chunk` runs.
  abbrev pub start : SseDecoder → List ℕ → Loop
  start d chunk = record { rest = d.buffer ++ chunk; frame = d.frame; events = [] }

  abbrev pub drained : SseDecoder → List ℕ → Loop
  drained d chunk = drain lossy (suc (length (d.buffer ++ chunk))) (start d chunk)

  finish_fits :
      (l : Loop)
      → (finish lossy l).0.overflowed ≡ false
      → finish lossy l ≡ (record { buffer = l.rest; frame = l.frame; overflowed = false }, l.events)
  unfolding finish
  finish_fits l h = ground arith

  pub push_open :
      (d : SseDecoder) (chunk : List ℕ)
      → d.overflowed ≡ false
      → push_bytes lossy d chunk ≡ finish lossy (drained d chunk)
  unfolding push_bytes
  push_open d chunk h = rw h

  was_open :
      (d : SseDecoder) (chunk : List ℕ)
      → (push_bytes lossy d chunk).0.overflowed ≡ false
      → d.overflowed ≡ false
  unfolding push_bytes
  was_open d chunk h = ground arith

  drained-append :
      (d : SseDecoder) (a b : List ℕ)
      → let m = drained d a in
        drained d (a ++ b)
        ≡ add_events m.events
            (drained (record { buffer = m.rest; frame = m.frame; overflowed = false }) b)
  drained-append d a b =
      let f = suc (length (d.buffer ++ a)) in
      let g = suc (length ((d.buffer ++ a) ++ b)) in
      let m = drained d a in
      let n = record m { rest = m.rest ++ b } in
      let more = length-append (d.buffer ++ a) b in
      ap
        (λ buffer.
          drain lossy (suc (length buffer))
            (record { rest = buffer; frame = d.frame; events = [] }))
        (sym (append_assoc d.buffer a b))
      ∙ drain-append lossy f g (start d a) b (omega arith) (omega (arith, more))
      ∙ drain_fuel lossy g (suc (length (m.rest ++ b))) n
          (omega (arith, more, length-append m.rest b, drain_shorter lossy f (start d a)))
          (omega arith)
      ∙ ap (λ es. drain lossy (suc (length (m.rest ++ b))) (record n { events = es }))
          (sym (append-nil m.events))
      ∙ drain-events lossy (suc (length (m.rest ++ b))) m.events (record n { events = [] })

  -- A push of two chunks at once gives the decoder and the events of the two pushes in a row, if the
  -- first does not overflow.
  pub push-append :
      (d : SseDecoder) (a b : List ℕ)
      → (push_bytes lossy d a).0.overflowed ≡ false
      → let (d', events) = push_bytes lossy d a in
        let (d'', later) = push_bytes lossy d' b in
        push_bytes lossy d (a ++ b) ≡ (d'', events ++ later)
  push-append d a b h =
      let o = was_open d a h in
      let m = drained d a in
      let fits = finish_fits m (ap (λ r. r.0.overflowed) (sym (push_open d a o)) ∙ h) in
      let d' : SseDecoder = record { buffer = m.rest; frame = m.frame; overflowed = false } in
      let first : push_bytes lossy d a ≡ (d', m.events) = push_open d a o ∙ fits in
      rw first (
        push_open d (a ++ b) o
        ∙ ap (finish lossy) (drained-append d a b)
        ∙ finish-add_events m.events (drained d' b)
        ∙ ap (λ r. (r.0, m.events ++ r.1)) (sym (push_open d' b refl)))

-- No chunk but the last overflows the decoder.
abbrev pub Fits : (List ℕ → Text) → SseDecoder → List (List ℕ) → Type 0
Fits lossy d [] = Unit {0}
Fits lossy d (c ∷ cs) =
    ((push_bytes lossy d c).0.overflowed ≡ false) × Fits lossy (push_bytes lossy d c).0 cs

-- However a stream is cut into chunks, also inside a line, a CR LF pair or a UTF-8 sequence, the decoder
-- and the events are those of the whole stream pushed at once, while no chunk before the last one
-- overflows the decoder.
pub push_all-concat :
    (lossy : List ℕ → Text) (d : SseDecoder) (cs : List (List ℕ)) (last : List ℕ)
    → Fits lossy d cs
    → push_all lossy d (cs ++ last ∷ []) ≡ push_bytes lossy d (concat cs ++ last)
unfolding push_all
push_all-concat lossy d [] last h = rw append-nil
push_all-concat lossy d (c ∷ cs) last h =
    rw (push_all-concat lossy (push_bytes lossy d c).0 cs last h.1, append_assoc)
      (sym (push-append lossy d c (concat cs ++ last) h.0))
