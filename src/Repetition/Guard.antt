-- ===== src/Repetition/Guard.antt =====
-- What the client of a guarded stream reads.
use heterion_router.Prelude.{
  ℕ, suc, ◌-◌, ◌≤◌, ◌<◌, ◌≡◌, refl, sym, ◌∙◌, ap, Bool, true, false, Option, none, some, List, [],
  ◌∷◌, ◌++◌, Text, ltb, if◌then◌else◌, length, drop, arith, Nat-cases, inl, inr,
}
use heterion_router.Prelude.Whitespace.{split_whitespace}
use heterion_router.Repetition.{
  ngram, window_words, RepetitionHit, window_repetition, is_loop, hit_of, analyze, tail_window,
  last_words, is_nil,
}
use heterion_router.Repetition.Stream.{
  StreamChunk, truncated_chunk, StreamGuard, report, pushed, push, Item, chunk, error, Guarded,
  Polled, unfinished, end_of_stream, yielded, watch, after_watch, pull, take_terminal, poll,
}

abbrev Next : Type 0
Next = Guarded → Polled

-- Two ways to go on that agree once the terminal chunk waits.
abbrev Agree : Next → Next → Type 0
Agree a b =
    (s : Guarded) (c : StreamChunk)
    → a (record s { terminal = some c }) ≡ b (record s { terminal = some c })

after_watch-Agree :
    (a b : Next) (c : StreamChunk) (x : Guarded × Option RepetitionHit)
    → Agree a b
    → after_watch a c x ≡ after_watch b c x
after_watch-Agree a b c (s, none) h = refl
after_watch-Agree a b c (s, some hit) h = h s truncated_chunk

pull-Agree :
    (a b : Next) (s : Guarded) (items : List Item) → Agree a b → pull a s items ≡ pull b s items
pull-Agree a b s [] h = refl
pull-Agree a b s (error e ∷ rest) h = refl
pull-Agree a b s (chunk c ∷ rest) h =
    after_watch-Agree a b c (watch (record s { stream = rest }) c) h

take_terminal-Agree :
    (a b : Next) (s : Guarded) (t : Option StreamChunk)
    → Agree a b
    → take_terminal a s t ≡ take_terminal b s t
take_terminal-Agree a b s none h = pull-Agree a b s s.stream h
take_terminal-Agree a b s (some c) h = refl

abbrev pub IsAnswered : Polled → Type 0
IsAnswered unfinished = ⊥
IsAnswered end_of_stream = Unit {0}
IsAnswered (yielded item s) = Unit {0}

ended_or : (b : Bool) (r : Polled) → IsAnswered r → IsAnswered (if b then end_of_stream else r)
ended_or true r h = tt
ended_or false r h = h

after_watch-IsAnswered :
    (c : StreamChunk) (x : Guarded × Option RepetitionHit) → IsAnswered (after_watch (poll 1) c x)
unfolding poll
after_watch-IsAnswered c (s, none) = tt
after_watch-IsAnswered c (s, some hit) = ended_or s.finished _ tt

pull-IsAnswered : (s : Guarded) (items : List Item) → IsAnswered (pull (poll 1) s items)
pull-IsAnswered s [] = tt
pull-IsAnswered s (error e ∷ rest) = tt
pull-IsAnswered s (chunk c ∷ rest) = after_watch-IsAnswered c (watch (record s { stream = rest }) c)

take_terminal-IsAnswered :
    (s : Guarded) (t : Option StreamChunk) → IsAnswered (take_terminal (poll 1) s t)
take_terminal-IsAnswered s none = pull-IsAnswered s s.stream
take_terminal-IsAnswered s (some c) = tt

-- From every state a poll comes to an item or to the end of the stream within two rounds, and more
-- fuel than that changes nothing.
pub poll-enough :
    (fuel : ℕ) (s : Guarded) → IsAnswered (poll 2 s) × (poll (suc (suc fuel)) s ≡ poll 2 s)
unfolding poll
poll-enough fuel s = (
  ended_or s.finished _ (take_terminal-IsAnswered s s.terminal),
  ap (λ t. if s.finished then end_of_stream else t)
      (take_terminal-Agree (poll (suc fuel)) (poll 1) s s.terminal (λ s1 c. refl)),
)

-- What the rules say of a text with these words.
abbrev pub verdict : List Text → Option RepetitionHit
verdict words = hit_of (window_repetition (last_words words)) words

no_hit : (words : List Text) (n : ℕ) → hit_of ((0, 1), 0, n) words ≡ none
unfolding is_loop
no_hit words n = refl

few_repetition :
    (words : List Text) → length words < ngram → window_repetition words ≡ ((0, 1), 0, length words)
unfolding window_repetition
few_repetition words h = ground arith

ltb-true : (m n : ℕ) → m < n → ltb m n ≡ true
ltb-true m n h = ground arith

ltb-false : (m n : ℕ) → n ≤ m → ltb m n ≡ false
ltb-false m n h = ground arith

drop_zero : (k : ℕ) (ws : List Text) → k ≡ 0 → drop k ws ≡ ws
drop_zero k ws e = rw e refl

drop_choice :
    (n k : ℕ) (ws : List Text)
    → k ≡ n - window_words
    → (if ltb window_words n then drop k ws else ws) ≡ drop k ws
drop_choice n k ws e = elim (Nat-cases window_words n) [
  | inl h ↦ ground (arith, h)
  | inr h ↦ ground (arith, h, drop_zero k ws (omega (arith, e, h)))
]

last_words-drop : (words : List Text) → last_words words ≡ drop (length words - window_words) words
unfolding last_words
last_words-drop words = drop_choice (length words) (length words - window_words) words refl

few_last : (words : List Text) → length words < ngram → last_words words ≡ words
unfolding last_words
few_last words h = ground arith

pub few_words :
    (words : List Text)
    → length words < ngram
    → hit_of (window_repetition (last_words words)) words ≡ none
few_words words h =
    rw (few_last words h) (rw (few_repetition words h) (no_hit words (length words)))

report-hit : (g : StreamGuard) (o : Option RepetitionHit) → (report g o).1 ≡ o
report-hit g none = refl
report-hit g (some hit) = refl

abbrev pub guard_of : List Text → StreamGuard
guard_of words = record { words = words; triggered = false }

short_choice :
    (n : ℕ) (words window : List Text)
    → n < ngram
    → verdict words ≡ none
    → (if ltb n ngram
        then (guard_of words, none)
        else report (guard_of words) (hit_of (window_repetition window) words))
      ≡ report (guard_of words) (verdict words)
short_choice n words window h e = rw (ltb-true n ngram h, e) refl

long_choice :
    (n : ℕ) (words window : List Text)
    → ngram ≤ n
    → (if ltb n ngram
        then (guard_of words, none)
        else report (guard_of words) (hit_of (window_repetition window) words))
      ≡ report (guard_of words) (hit_of (window_repetition window) words)
long_choice n words window h = rw (ltb-false n ngram h) refl

-- What a guard that has not triggered does with its words.
pushed_lem : (words : List Text) → pushed (guard_of words) ≡ report (guard_of words) (verdict words)
pushed_lem words = elim (Nat-cases (length words) ngram) [
  | inl h ↦
      short_choice (length words) words (drop (length words - window_words) words) h
        (few_words words h)
  | inr h ↦
      rw (last_words-drop words)
        (long_choice (length words) words (drop (length words - window_words) words) h)
]

pub push_lem :
    (words : List Text) (text : Text)
    → push (guard_of words) text
      ≡ report
          (guard_of (words ++ split_whitespace text))
          (verdict (words ++ split_whitespace text))
unfolding push
push_lem words text = pushed_lem (words ++ split_whitespace text)

analyze_choice :
    (words : List Text)
    → (if is_nil words then none else hit_of (window_repetition (last_words words)) words)
      ≡ hit_of (window_repetition (last_words words)) words
analyze_choice [] = sym (few_words [] (omega arith))
analyze_choice (w ∷ ws) = refl

pub analyze-hit :
    (text : Text)
    → analyze text
      ≡ hit_of (window_repetition (last_words (split_whitespace text))) (split_whitespace text)
unfolding analyze tail_window
analyze-hit text = analyze_choice (split_whitespace text)

-- A guard that has not triggered reports of the text so far what `analyze` reports of a text with
-- the same words, however the text was cut into pieces between words.
pub push-analyze :
    (g : StreamGuard) (text whole : Text)
    → g.triggered ≡ false
    → split_whitespace whole ≡ g.words ++ split_whitespace text
    → (push g text).1 ≡ analyze whole
unfolding push
push-analyze g text whole h e =
    rw (h, analyze-hit whole, e)
      (ap (λ x. x.1) (pushed_lem (g.words ++ split_whitespace text))
        ∙ report-hit (guard_of (g.words ++ split_whitespace text))
            (verdict (g.words ++ split_whitespace text)))
