-- ===== src/Sse/Drain.antt =====
-- The line loop of the SSE decoder: its fuel is enough, and it can be stopped and resumed.
use mathlib.Core.List.{append_assoc}
use heterion_router.Prelude.{
  ℕ, zero, suc, ◌+◌, ◌≤◌, ◌<◌, ◌≡◌, ◌≢◌, refl, sym, ◌∙◌, ap, Option, none, some, List, [], ◌∷◌,
  ◌++◌, length, length-append, length-drop, take, drop, Text, arith, Option-cases, inl, inr,
  if◌then◌else◌, ◌==◌,
}
use heterion_router.Sse.{
  SseEvent, Loop, shift, next_line, take_line, drain, push_event, parse_frame,
}

next_line_cons :
    (c d : ℕ) (cs : List ℕ)
    → next_line (c ∷ d ∷ cs) ≡ (
        if c == 10
        then some (0, 1)
        else if c == 13
        then some (0, if d == 10 then 2 else 1)
        else shift (next_line (d ∷ cs)))
unfolding next_line
next_line_cons c d cs = refl

-- What is proved of a line that `next_line` finds in a buffer of the given length.
abbrev IsWithin : ℕ → Option (ℕ × ℕ) → Type 0
IsWithin len none = Unit {0}
IsWithin len (some (i, n)) = (1 ≤ n) × (i + n ≤ len)

bounds_step :
    (c d : ℕ) (cs : List ℕ) (i n : ℕ) (r : Option (ℕ × ℕ))
    → next_line (d ∷ cs) ≡ r
    → IsWithin (length (d ∷ cs)) r
    → next_line (c ∷ d ∷ cs) ≡ some (i, n)
    → (1 ≤ n) × (i + n ≤ length (c ∷ d ∷ cs))
bounds_step c d cs i n r e w h = ground (arith, next_line_cons c d cs)

append_step :
    (c d : ℕ) (cs y : List ℕ) (i n : ℕ) (r : Option (ℕ × ℕ))
    → next_line (d ∷ cs) ≡ r
    → (r ≢ none → next_line (d ∷ cs ++ y) ≡ r)
    → next_line (c ∷ d ∷ cs) ≡ some (i, n)
    → next_line (c ∷ d ∷ cs ++ y) ≡ some (i, n)
append_step c d cs y i n r e w h =
    ground (arith, next_line_cons c d cs, next_line_cons c d (cs ++ y))

pub next_line_bounds :
    (b : List ℕ) (i n : ℕ) → next_line b ≡ some (i, n) → (1 ≤ n) × (i + n ≤ length b)
unfolding next_line
next_line_bounds [] i n h = cc
next_line_bounds (c ∷ []) i n h = ground arith
next_line_bounds (c ∷ d ∷ cs) i n h = elim (Option-cases (next_line (d ∷ cs))) [
  | inl e ↦ bounds_step c d cs i n none e tt h
  | inr ((j, m), e) ↦ bounds_step c d cs i n (some (j, m)) e (next_line_bounds (d ∷ cs) j m e) h
]

pub next_line-append :
    (x y : List ℕ) (i n : ℕ) → next_line x ≡ some (i, n) → next_line (x ++ y) ≡ some (i, n)
unfolding next_line
next_line-append [] y i n h = cc
next_line-append (c ∷ []) y i n h = ground arith
next_line-append (c ∷ d ∷ cs) y i n h = elim (Option-cases (next_line (d ∷ cs))) [
  | inl e ↦ append_step c d cs y i n none e (λ k. absurd (k refl)) h
  | inr ((j, m), e) ↦
      append_step c d cs y i n (some (j, m)) e (λ k. next_line-append (d ∷ cs) y j m e) h
]

module _ {ℓ} {A : Type ℓ} where
  take-append_left : (k : ℕ) (x y : List A) → k ≤ length x → take k (x ++ y) ≡ take k x
  take-append_left zero x y h = refl
  take-append_left (suc k) [] y h = absurd (omega arith)
  take-append_left (suc k) (a ∷ x) y h = ap (◌∷◌ a) (take-append_left k x y (omega arith))

  drop-append_left : (k : ℕ) (x y : List A) → k ≤ length x → drop k (x ++ y) ≡ drop k x ++ y
  drop-append_left zero x y h = refl
  drop-append_left (suc k) [] y h = absurd (omega arith)
  drop-append_left (suc k) (a ∷ x) y h = drop-append_left k x y (omega arith)

-- The state behind the line that `next_line` found.
abbrev pub next_loop : (List ℕ → Text) → Loop → ℕ → ℕ → Loop
next_loop lossy l i n =
    let (frame, events) = take_line l.frame l.events (lossy (take i l.rest)) in
    record { rest = drop (i + n) l.rest; frame = frame; events = events }

abbrev pub add_events : List SseEvent → Loop → Loop
add_events es l = record l { events = es ++ l.events }

push_event-append :
    (es fs : List SseEvent) (r : Option SseEvent) → push_event (es ++ fs) r ≡ es ++ push_event fs r
push_event-append es fs none = refl
push_event-append es fs (some e) = append_assoc es fs (e ∷ [])

take_line-events :
    (frame line : Text) (es fs : List SseEvent)
    → take_line frame (es ++ fs) line
      ≡ ((take_line frame fs line).0, es ++ (take_line frame fs line).1)
unfolding take_line
take_line-events frame line es fs = ground (arith, push_event-append es fs (parse_frame frame))

module _ (lossy : List ℕ → Text) where
  pub drain_finished : (f : ℕ) (l : Loop) → next_line l.rest ≡ none → drain lossy f l ≡ l
  unfolding drain
  drain_finished zero l e = refl
  drain_finished (suc f) l e = rw (e, drain)

  pub drain_line :
      (f : ℕ) (l : Loop) (i n : ℕ)
      → next_line l.rest ≡ some (i, n)
      → drain lossy (suc f) l ≡ drain lossy f (next_loop lossy l i n)
  unfolding drain
  drain_line f l i n e = rw (e, drain)

  -- With more fuel than bytes the loop ends because no line is left.
  pub drain_done : (f : ℕ) (l : Loop) → length l.rest < f → next_line (drain lossy f l).rest ≡ none
  drain_done zero l h = absurd (omega arith)
  drain_done (suc f) l h = elim (Option-cases (next_line l.rest)) [
    | inl e ↦ rw (drain_finished (suc f) l e) e
    | inr ((i, n), e) ↦
        let b = next_line_bounds l.rest i n e in
        rw (drain_line f l i n e)
          (drain_done f (next_loop lossy l i n) (omega (arith, b, length-drop (i + n) l.rest)))
  ]

  -- So the amount of fuel does not matter, once it is more than the bytes.
  pub drain_fuel :
      (f g : ℕ) (l : Loop)
      → length l.rest < f
      → length l.rest < g
      → drain lossy f l ≡ drain lossy g l
  drain_fuel zero g l h k = absurd (omega arith)
  drain_fuel (suc f) zero l h k = absurd (omega arith)
  drain_fuel (suc f) (suc g) l h k = elim (Option-cases (next_line l.rest)) [
    | inl e ↦ drain_finished (suc f) l e ∙ sym (drain_finished (suc g) l e)
    | inr ((i, n), e) ↦
        let b = next_line_bounds l.rest i n e in
        rw (drain_line f l i n e, drain_line g l i n e)
          (drain_fuel f g (next_loop lossy l i n) (omega (arith, b, length-drop (i + n) l.rest))
            (omega (arith, b, length-drop (i + n) l.rest)))
  ]

  pub drain_shorter : (f : ℕ) (l : Loop) → length (drain lossy f l).rest ≤ length l.rest
  unfolding drain
  drain_shorter zero l = omega arith
  drain_shorter (suc f) l = elim (Option-cases (next_line l.rest)) [
    | inl e ↦ rw (e, drain) (omega arith)
    | inr ((i, n), e) ↦
        rw (e, drain)
          (omega (arith, drain_shorter f (next_loop lossy l i n), length-drop (i + n) l.rest))
  ]

  next_loop-append :
      (l : Loop) (y : List ℕ) (i n : ℕ)
      → i + n ≤ length l.rest
      → next_loop lossy (record l { rest = l.rest ++ y }) i n
        ≡ record (next_loop lossy l i n) { rest = (next_loop lossy l i n).rest ++ y }
  next_loop-append l y i n h =
      rw (take-append_left i l.rest y (omega arith), drop-append_left (i + n) l.rest y h)

  -- Draining `x ++ y` is draining `x`, and then what is left of it with `y` behind.
  pub drain-append :
      (f g : ℕ) (l : Loop) (y : List ℕ)
      → length l.rest < f
      → length l.rest + length y < g
      → let m = drain lossy f l in
        drain lossy g (record l { rest = l.rest ++ y })
        ≡ drain lossy g (record m { rest = m.rest ++ y })
  drain-append zero g l y h k = absurd (omega arith)
  drain-append (suc f) zero l y h k = absurd (omega arith)
  drain-append (suc f) (suc g) l y h k = elim (Option-cases (next_line l.rest)) [
    | inl e ↦ rw (drain_finished (suc f) l e)
    | inr ((i, n), e) ↦
        let b = next_line_bounds l.rest i n e in
        let c = length-drop (i + n) l.rest in
        let l' = next_loop lossy l i n in
        let m = drain lossy f l' in
        drain_line g (record l { rest = l.rest ++ y }) i n (next_line-append l.rest y i n e)
        ∙ ap (drain lossy g) (next_loop-append l y i n b.1)
        ∙ drain-append f g l' y (omega (arith, b, c)) (omega (arith, b, c))
        ∙ drain_fuel g (suc g) (record m { rest = m.rest ++ y })
            (omega (arith, b, c, length-append m.rest y, drain_shorter f l'))
            (omega (arith, b, c, length-append m.rest y, drain_shorter f l'))
        ∙ ap (λ w. drain lossy (suc g) (record w { rest = w.rest ++ y }))
            (sym (drain_line f l i n e))
  ]

  -- Events that were there before stay in front.
  pub drain-events :
      (f : ℕ) (es : List SseEvent) (l : Loop)
      → drain lossy f (add_events es l) ≡ add_events es (drain lossy f l)
  unfolding drain
  drain-events zero es l = refl
  drain-events (suc f) es l = elim (Option-cases (next_line l.rest)) [
    | inl e ↦ rw (e, drain)
    | inr ((i, n), e) ↦
        let line = lossy (take i l.rest) in
        rw (e, drain)
          (rw (take_line-events l.frame line es l.events)
            (drain-events f es (next_loop lossy l i n)))
  ]
