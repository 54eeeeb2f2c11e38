-- ===== src/Repetition/Tests.antt =====
-- A loop of two words, and what a client reads of it.
use heterion_router.Json.{Value, Items, Fields, number, Number, string, array}
use heterion_router.Prelude.{
  ◌+◌, ◌++◌, ◌≤◌, ◌≡◌, refl, none, some, [], ◌∷◌, Text, codes, text_eq, length, arith, replicate,
}
use heterion_router.Prelude.Whitespace.{split_whitespace, join}
use heterion_router.Repetition.Bounds.{analyze-in_bounds}
use heterion_router.Repetition.{
  ngram, RepetitionHit, analyze, trim, tail_window, last_words, window_repetition, windows,
  words_eq, count_of, increment, scan_window, scan, highest, occurs, distinct_words, best_window,
  position, loop_start, is_loop,
}
use heterion_router.Repetition.Stream.{
  StreamChunk, truncated_chunk, new, push, chunk, guarded, poll, outputs,
}
use heterion_router.Repetition.Guard.{IsAnswered, poll-enough, push-analyze}
use heterion_router.Repetition.Cut.{Shown, guard_stream-Shown}

abbrev said : Text → StreamChunk
said text = record {
  content = some text;
  reasoning = none;
  tool_calls = none;
  finish_reason = none;
  usage = none;
  usage_detail = none;
}

abbrev looping : Text
looping = join (codes " ") (codes "so" ∷ replicate 13 (codes "x"))

test_trim :
    trim looping
    ≡ some (
      codes "so",
      record {
        source = codes "content";
        repeat_ratio = (5, 7);
        repeats = 6;
        cut_word = 1;
        total_words = 14;
      },
    )
unfolding trim analyze split_whitespace join is_loop window_repetition tail_window last_words scan
    windows scan_window count_of words_eq text_eq highest increment distinct_words occurs loop_start
    best_window position
test_trim = refl

push-analyze_example : (push new (codes "all is well")).1 ≡ analyze (codes "all is well")
unfolding split_whitespace
push-analyze_example = push-analyze new (codes "all is well") (codes "all is well") refl refl

poll-enough_example :
    IsAnswered (poll 2 (guarded (chunk (said looping) ∷ [])))
    × (poll 5 (guarded (chunk (said looping) ∷ [])) ≡ poll 2 (guarded (chunk (said looping) ∷ [])))
poll-enough_example = poll-enough 3 (guarded (chunk (said looping) ∷ []))

guard_stream-Shown_example :
    Shown [] []
      (chunk (said looping) ∷ chunk (said (codes "more")) ∷ [])
      (outputs 2 (guarded (chunk (said looping) ∷ chunk (said (codes "more")) ∷ [])))
guard_stream-Shown_example =
    guard_stream-Shown (chunk (said looping) ∷ chunk (said (codes "more")) ∷ []) 2 (omega arith)

-- A word sent letter by letter is cut as a loop, although the joined text is one word.
test_letters :
    (outputs 20 (guarded (replicate 20 (chunk (said (codes "x")))))
      ≡ replicate 10 (chunk (said (codes "x"))) ++ chunk truncated_chunk ∷ [])
    × (analyze (replicate 20 120) ≡ none)
unfolding outputs poll push analyze split_whitespace is_loop window_repetition tail_window
    last_words scan windows scan_window count_of words_eq text_eq highest increment distinct_words
    occurs loop_start best_window position
test_letters = (refl, refl)

abbrev loop_hit : RepetitionHit
loop_hit = record {
  source = codes "content";
  repeat_ratio = (5, 7);
  repeats = 6;
  cut_word = 1;
  total_words = 14;
}

looping_hit : analyze looping ≡ some loop_hit
unfolding analyze split_whitespace join is_loop window_repetition tail_window last_words scan
    windows scan_window count_of words_eq text_eq highest increment distinct_words occurs loop_start
    best_window position
looping_hit = refl

analyze-in_bounds_example :
    (loop_hit.cut_word + ngram ≤ loop_hit.total_words)
    × (loop_hit.total_words ≡ length (split_whitespace looping))
analyze-in_bounds_example = analyze-in_bounds looping loop_hit looping_hit

-- A content with an image, here a number, beside its text.
abbrev parts : Value
parts = array (
    Items.cons (number (Number.nat 7)) (
      Items.cons
        (Value.object (
          Fields.field (codes "type") (string (codes "text"))
            (Fields.field (codes "text") (string (codes "so x x")) Fields.end)))
        Items.nil))
