-- ===== src/Sse/Bounds.antt =====
-- What the decoder holds between pushes, and what an overflow does.
use heterion_router.Prelude.{
  ℕ, ◌≤◌, ◌≡◌, refl, sym, ◌∙◌, ap, true, false, List, [], ◌∷◌, ◌++◌, Text, arith, Bool-cases, inl,
  inr,
}
use heterion_router.Prelude.Whitespace.{utf8_len}
use heterion_router.Sse.{
  SseEvent, SseDecoder, Loop, new, finish, push_bytes, overflow_event, buffered,
  max_sse_event_bytes,
}
use heterion_router.Sse.Chunks.{push_all, push_open, drained}

-- At most the cap is held, and nothing after an overflow.
pub record IsBounded (d : SseDecoder) : Type 0 where
  pub capped : buffered d ≤ max_sse_event_bytes
  pub emptied : d.overflowed ≡ true → buffered d ≡ 0

finish-IsBounded : (lossy : List ℕ → Text) (l : Loop) → IsBounded (finish lossy l).0
unfolding finish buffered utf8_len
finish-IsBounded lossy l = ground arith

push_closed :
    (lossy : List ℕ → Text) (d : SseDecoder) (chunk : List ℕ)
    → d.overflowed ≡ true
    → push_bytes lossy d chunk ≡ (d, [])
unfolding push_bytes
push_closed lossy d chunk h = rw h

push-IsBounded :
    (lossy : List ℕ → Text) (d : SseDecoder) (chunk : List ℕ)
    → IsBounded d
    → IsBounded (push_bytes lossy d chunk).0
push-IsBounded lossy d chunk v = elim (Bool-cases d.overflowed) [
  | inl e ↦ rw (push_closed lossy d chunk e) v
  | inr e ↦ rw (push_open lossy d chunk e) (finish-IsBounded lossy (drained lossy d chunk))
]

push_all_from-IsBounded :
    (lossy : List ℕ → Text) (d : SseDecoder) (cs : List (List ℕ))
    → IsBounded d
    → IsBounded (push_all lossy d cs).0
unfolding push_all
push_all_from-IsBounded lossy d [] v = v
push_all_from-IsBounded lossy d (c ∷ cs) v =
    push_all_from-IsBounded lossy (push_bytes lossy d c).0 cs (push-IsBounded lossy d c v)

-- Whatever chunks arrive, of whatever lengths, a new decoder holds at most the cap between two
-- pushes, and holds nothing once it has overflowed.
pub push_all-IsBounded :
    (lossy : List ℕ → Text) (cs : List (List ℕ)) → IsBounded (push_all lossy new cs).0
push_all-IsBounded lossy cs =
    push_all_from-IsBounded lossy new cs (record { capped = empty_fits; emptied = λ e. cc })
  where
    empty_fits : buffered new ≤ max_sse_event_bytes
    empty_fits = unfold buffered utf8_len max_sse_event_bytes in omega arith

push_all_closed :
    (lossy : List ℕ → Text) (d : SseDecoder) (cs : List (List ℕ))
    → d.overflowed ≡ true
    → push_all lossy d cs ≡ (d, [])
unfolding push_all
push_all_closed lossy d [] h = refl
push_all_closed lossy d (c ∷ cs) h = rw (push_closed lossy d c h) (push_all_closed lossy d cs h)

finish_overflows :
    (lossy : List ℕ → Text) (l : Loop)
    → (finish lossy l).0.overflowed ≡ true
    → (finish lossy l).1 ≡ l.events ++ overflow_event ∷ []
unfolding finish
finish_overflows lossy l h = ground arith

-- The push that overflows ends its events with the one error event, the decoder then holds nothing,
-- and no later chunk produces an event or changes the decoder.
pub overflow_final :
    (lossy : List ℕ → Text) (d : SseDecoder) (chunk : List ℕ) (later : List (List ℕ))
    → d.overflowed ≡ false
    → (push_bytes lossy d chunk).0.overflowed ≡ true
    → let d' = (push_bytes lossy d chunk).0 in
      ((es : List SseEvent) × ((push_bytes lossy d chunk).1 ≡ es ++ overflow_event ∷ []))
      × (buffered d' ≡ 0)
      × (push_all lossy d' later ≡ (d', []))
overflow_final lossy d chunk later o h =
    let l = drained lossy d chunk in
    let e = push_open lossy d chunk o in
    let k = ap (λ r. r.0.overflowed) (sym e) ∙ h in
    let b : IsBounded (push_bytes lossy d chunk).0 = rw e (finish-IsBounded lossy l) in
    (
      (l.events, ap (λ r. r.1) e ∙ finish_overflows lossy l k),
      b.emptied h,
      push_all_closed lossy (push_bytes lossy d chunk).0 later h,
    )
