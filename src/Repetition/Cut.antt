-- ===== src/Repetition/Cut.antt =====
-- Where a guarded stream is cut.
use heterion_router.Prelude.{
  ℕ, zero, suc, ◌≤◌, ◌≡◌, refl, true, false, Option, none, some, List, [], ◌∷◌, ◌++◌, Text, length,
  arith,
}
use heterion_router.Prelude.Whitespace.{split_whitespace}
use heterion_router.Upstream.{GatewayError}
use heterion_router.Repetition.{RepetitionHit}
use heterion_router.Repetition.Stream.{
  StreamChunk, truncated_chunk, StreamGuard, report, push_some, as_reasoning, watch_reasoning, Item,
  chunk, error, Guarded, guarded, Polled, yielded, after_watch, poll, next_items, outputs,
}
use heterion_router.Repetition.Guard.{verdict, guard_of, push_lem}

-- The words so far with those of a chunk's text.
abbrev pub with_words : List Text → Option Text → List Text
with_words ws none = ws
with_words ws (some text) = ws ++ split_whitespace text

-- What the rules say after a chunk's text; a chunk with none changes nothing.
abbrev pub verdict_after : List Text → Option Text → Option RepetitionHit
verdict_after ws none = none
verdict_after ws (some text) = verdict (ws ++ split_whitespace text)

-- What the client reads of an upstream, by the words of the content and of the reasoning so far:
-- every item up to the chunk that completes a loop, and in its place the terminal chunk.
pub data Shown : List Text → List Text → List Item → List Item → Type 0 where
  ended : {cs rs : List Text} → Shown cs rs [] []
  failed :
      {cs rs : List Text} {e : GatewayError} {is os : List Item}
      → Shown cs rs is os
      → Shown cs rs (error e ∷ is) (error e ∷ os)
  passed :
      {cs rs : List Text} {c : StreamChunk} {is os : List Item}
      → verdict_after cs c.content ≡ none
      → verdict_after rs c.reasoning ≡ none
      → Shown (with_words cs c.content) (with_words rs c.reasoning) is os
      → Shown cs rs (chunk c ∷ is) (chunk c ∷ os)
  cut_content :
      {cs rs : List Text} {c : StreamChunk} {is : List Item} {hit : RepetitionHit}
      → verdict_after cs c.content ≡ some hit
      → Shown cs rs (chunk c ∷ is) (chunk truncated_chunk ∷ [])
  cut_reasoning :
      {cs rs : List Text} {c : StreamChunk} {is : List Item} {hit : RepetitionHit}
      → verdict_after cs c.content ≡ none
      → verdict_after rs c.reasoning ≡ some hit
      → Shown cs rs (chunk c ∷ is) (chunk truncated_chunk ∷ [])

abbrev state : List Text → List Text → List Item → Guarded
state cs rs is = record {
  stream = is;
  content = guard_of cs;
  reasoning = guard_of rs;
  terminal = none;
  finished = false;
}

push_some_lem :
    (ws : List Text) (t : Option Text)
    → push_some (guard_of ws) t ≡ report (guard_of (with_words ws t)) (verdict_after ws t)
push_some_lem ws none = refl
push_some_lem ws (some text) = push_lem ws text

finished_silent : (n : ℕ) (s : Guarded) → s.finished ≡ true → outputs n s ≡ []
unfolding outputs poll
finished_silent zero s h = refl
finished_silent (suc n) s h = rw h refl

-- One poll at a chunk.
abbrev AtChunk :
    List Text
    → List Text
    → StreamChunk
    → List Item
    → Option RepetitionHit
    → Option RepetitionHit
    → Polled
    → Type 0
AtChunk cs rs c is none none r =
    r ≡ yielded (chunk c) (state (with_words cs c.content) (with_words rs c.reasoning) is)
AtChunk cs rs c is (some hit) found r =
    (s : Guarded) × ((s.finished ≡ true) × (r ≡ yielded (chunk truncated_chunk) s))
AtChunk cs rs c is none (some hit) r =
    (s : Guarded) × ((s.finished ≡ true) × (r ≡ yielded (chunk truncated_chunk) s))

reasoning-AtChunk :
    (cs rs : List Text) (c : StreamChunk) (is : List Item) (o : Option RepetitionHit)
    (x : StreamGuard × Option RepetitionHit)
    → x ≡ report (guard_of (with_words rs c.reasoning)) o
    → AtChunk cs rs c is none o (
        after_watch
          (poll 1)
          c
          (record (state (with_words cs c.content) rs is) { reasoning = x.0 }, as_reasoning x.1))
unfolding poll
reasoning-AtChunk cs rs c is none x e = rw e refl
reasoning-AtChunk cs rs c is (some hit) x e = rw e (_, (refl, refl))

chunk-AtChunk :
    (cs rs : List Text) (c : StreamChunk) (is : List Item) (o : Option RepetitionHit)
    (x : StreamGuard × Option RepetitionHit)
    → x ≡ report (guard_of (with_words cs c.content)) o
    → AtChunk cs rs c is o
        (verdict_after rs c.reasoning)
        (after_watch (poll 1) c (watch_reasoning (record (state cs rs is) { content = x.0 }) c x.1))
unfolding poll
chunk-AtChunk cs rs c is none x e = rw e (
    reasoning-AtChunk cs rs c is (verdict_after rs c.reasoning)
      (push_some (guard_of rs) c.reasoning) (push_some_lem rs c.reasoning))
chunk-AtChunk cs rs c is (some hit) x e = rw e (_, (refl, refl))

-- What is read after a poll at a chunk.
after_poll :
    (n : ℕ) (cs rs : List Text) (c : StreamChunk) (is : List Item) (v w : Option RepetitionHit)
    (r : Polled)
    → verdict_after cs c.content ≡ v
    → verdict_after rs c.reasoning ≡ w
    → AtChunk cs rs c is v w r
    → Shown
        (with_words cs c.content)
        (with_words rs c.reasoning)
        is
        (outputs n (state (with_words cs c.content) (with_words rs c.reasoning) is))
    → Shown cs rs (chunk c ∷ is) (next_items (outputs n) r)
after_poll n cs rs c is none none r ev ew h rest = rw h (passed ev ew rest)
after_poll n cs rs c is (some hit) w r ev ew (s, (f, h)) rest =
    rw h (rw (finished_silent n s f) (cut_content ev))
after_poll n cs rs c is none (some hit) r ev ew (s, (f, h)) rest =
    rw h (rw (finished_silent n s f) (cut_reasoning ev ew))

outputs-Shown :
    (n : ℕ) (cs rs : List Text) (is : List Item)
    → length is ≤ n
    → Shown cs rs is (outputs n (state cs rs is))
unfolding outputs poll
outputs-Shown zero cs rs [] h = ended
outputs-Shown zero cs rs (i ∷ is) h = absurd (omega (arith, h))
outputs-Shown (suc n) cs rs [] h = ended
outputs-Shown (suc n) cs rs (error e ∷ is) h = failed (outputs-Shown n cs rs is (omega (arith, h)))
outputs-Shown (suc n) cs rs (chunk c ∷ is) h =
    after_poll n cs rs c is (verdict_after cs c.content) (verdict_after rs c.reasoning)
      (poll 2 (state cs rs (chunk c ∷ is))) refl refl
      (chunk-AtChunk cs rs c is (verdict_after cs c.content) (push_some (guard_of cs) c.content)
        (push_some_lem cs c.content))
      (outputs-Shown n (with_words cs c.content) (with_words rs c.reasoning) is (omega (arith, h)))

-- As many polls as the upstream has items read all that a guarded stream yields: each item as it
-- came, up to the first chunk after which the words of the content, or those of the reasoning, are a
-- loop by the rules for whole answers; in place of that chunk the terminal chunk `length`, and then
-- nothing. The words are those of each chunk's text split by itself: a word that is cut between two
-- chunks counts as two words, so chunks that cut words can be stopped where `analyze` finds no loop
-- in their joined text.
pub guard_stream-Shown :
    (is : List Item) (polls : ℕ) → length is ≤ polls → Shown [] [] is (outputs polls (guarded is))
guard_stream-Shown is polls h = outputs-Shown polls [] [] is h
