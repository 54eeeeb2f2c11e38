-- ===== src/Repetition.antt =====
-- The repetition guard: crates/heterion-router-gateway/src/repetition_guard.rs, lines 28-211. A
-- `HashMap` keyed by windows is an association list. The ratio of two counts of at most 249, an f64,
-- is kept as the pair: the quotient of such numbers is rounded to 0.5 only when it is 0.5.
pub mod Stream
pub mod Guard
pub mod Cut
pub mod Bounds
pub mod Content
mod Tests
use heterion_router.Prelude.{
  ℕ, zero, suc, ◌+◌, ◌-◌, ◌*◌, Bool, true, false, ◌&&◌, ◌||◌, not, Option, none, some, List, [],
  ◌∷◌, ◌++◌, Text, codes, text_eq, ltb, leb, if◌then◌else◌, length, take, drop, max, min,
}
use heterion_router.Prelude.Whitespace.{split_whitespace, join}

-- `NGRAM`.
abbrev pub ngram : ℕ
ngram = 8

-- `WINDOW_WORDS`.
abbrev pub window_words : ℕ
window_words = 256

-- `MIN_REPEATS`.
abbrev pub min_repeats : ℕ
min_repeats = 4

-- `MAX_DISTINCT_WORDS`.
abbrev pub max_distinct_words : ℕ
max_distinct_words = 16

-- `LARGE_ANSWER_WORDS`.
abbrev pub large_answer_words : ℕ
large_answer_words = 2000

pub record RepetitionHit : Type 0 where
  pub source : Text
  pub repeat_ratio : ℕ × ℕ
  pub repeats : ℕ
  pub cut_word : ℕ
  pub total_words : ℕ

-- The last words, as many as a window holds.
unfoldable pub last_words : List Text → List Text
last_words words =
    if ltb window_words (length words) then drop (length words - window_words) words else words

-- `tail_window`.
unfoldable pub tail_window : Text → List Text
tail_window text = last_words (split_whitespace text)

-- `==` of two windows.
unfoldable pub words_eq : List Text → List Text → Bool
words_eq [] [] = true
words_eq [] (w ∷ ws) = false
words_eq (v ∷ vs) [] = false
words_eq (v ∷ vs) (w ∷ ws) = text_eq v w && words_eq vs ws

-- `[T]::windows(NGRAM)`.
unfoldable pub windows : List Text → List (List Text)
windows [] = []
windows (w ∷ ws) =
    let rest = windows ws in if leb ngram (length (w ∷ ws)) then take ngram (w ∷ ws) ∷ rest else []

unfoldable pub count_of : List Text → List (List Text × ℕ) → Option ℕ
count_of window [] = none
count_of window ((w, n) ∷ m) = if words_eq w window then some n else count_of window m

-- `*counts.entry(window).or_insert(0) += 1`.
unfoldable pub increment : List Text → List (List Text × ℕ) → List (List Text × ℕ)
increment window [] = (window, 1) ∷ []
increment window ((w, n) ∷ m) =
    if words_eq w window then (w, n + 1) ∷ m else (w, n) ∷ increment window m

abbrev pub is_some : Option ℕ → Bool
is_some none = false
is_some (some n) = true

-- The locals of the loop of `window_repetition`.
pub record Scan : Type 0 where
  pub seen : List (List Text × ℕ)
  pub counts : List (List Text × ℕ)
  pub repeats : ℕ
  pub total : ℕ

unfoldable pub scan_window : Scan → List Text → Scan
scan_window s window =
    let total = s.total + 1 in
    let known = is_some (count_of window s.seen) in
    record {
      seen = if known then s.seen else s.seen ++ (window, total) ∷ [];
      counts = increment window s.counts;
      repeats = if known then s.repeats + 1 else s.repeats;
      total = total;
    }

unfoldable pub scan : Scan → List (List Text) → Scan
scan s [] = s
scan s (w ∷ ws) = scan (scan_window s w) ws

-- `counts.values().copied().max().unwrap_or(0)`.
unfoldable pub highest : List (List Text × ℕ) → ℕ
highest [] = 0
highest ((w, n) ∷ m) = max n (highest m)

unfoldable pub occurs : Text → List Text → Bool
occurs w [] = false
occurs w (v ∷ vs) = text_eq v w || occurs w vs

-- The size of `words.iter().collect::<HashSet<_>>()`.
unfoldable pub distinct_words : List Text → ℕ
distinct_words [] = 0
distinct_words (w ∷ ws) = (if occurs w ws then 0 else 1) + distinct_words ws

abbrev pub no_scan : Scan
no_scan = record { seen = []; counts = []; repeats = 0; total = 0 }

abbrev pub repetition_of : List Text → Scan → (ℕ × ℕ) × ℕ × ℕ
repetition_of words s =
    (if leb s.total 0 then (0, 1) else (s.repeats, s.total), highest s.counts, distinct_words words)

-- `window_repetition`.
unfoldable pub window_repetition : List Text → (ℕ × ℕ) × ℕ × ℕ
window_repetition words =
    if ltb (length words) ngram
    then ((0, 1), 0, length words)
    else repetition_of words (scan no_scan (windows words))

abbrev pub count_or_zero : Option ℕ → ℕ
count_or_zero none = 0
count_or_zero (some n) = n

abbrev pub one_more : Option ℕ → Option ℕ
one_more none = none
one_more (some n) = some (suc n)

-- The update of `best`.
abbrev pub better : Option (List Text × ℕ) → List Text → ℕ → Option (List Text × ℕ)
better none window count = some (window, count)
better (some (b, best_count)) window count =
    if ltb best_count count then some (window, count) else some (b, best_count)

-- The loop of `loop_start`, with its `counts` and `best`.
unfoldable pub best_window :
    List (List Text × ℕ) → Option (List Text × ℕ) → List (List Text) → Option (List Text × ℕ)
best_window counts best [] = best
best_window counts best (w ∷ ws) =
    let counts1 = increment w counts in
    best_window counts1 (better best w (count_or_zero (count_of w counts1))) ws

-- `position(|candidate| candidate == window).unwrap_or(0)`.
unfoldable pub position : List Text → List (List Text) → Option ℕ
position window [] = none
position window (w ∷ ws) =
    let rest = position window ws in if words_eq w window then some 0 else one_more rest

abbrev pub start_of : List (List Text) → Option (List Text × ℕ) → ℕ
start_of ws none = 0
start_of ws (some (window, n)) = count_or_zero (position window ws)

-- `loop_start`.
unfoldable pub loop_start : List Text → ℕ
loop_start words = start_of (windows words) (best_window [] none (windows words))

-- `is_loop`.
unfoldable pub is_loop : ℕ × ℕ → ℕ → ℕ → ℕ → Bool
is_loop (repeated, total) repeats distinct total_words =
    if ltb (2 * repeated) total || ltb repeats min_repeats
    then false
    else leb distinct max_distinct_words || leb large_answer_words total_words

abbrev pub hit_of : (ℕ × ℕ) × ℕ × ℕ → List Text → Option RepetitionHit
hit_of (ratio, repeats, distinct) words =
    if is_loop ratio repeats distinct (length words)
    then some (record {
      source = codes "content";
      repeat_ratio = ratio;
      repeats = repeats;
      cut_word = loop_start words;
      total_words = length words;
    })
    else none

abbrev pub is_nil : List Text → Bool
is_nil [] = true
is_nil (w ∷ ws) = false

-- `analyze`.
unfoldable pub analyze : Text → Option RepetitionHit
analyze text =
    let words = split_whitespace text in
    if is_nil words then none else hit_of (window_repetition (tail_window text)) words

abbrev pub kept_of : Text → Option RepetitionHit → Option (Text × RepetitionHit)
kept_of text none = none
kept_of text (some hit) =
    let words = split_whitespace text in
    some (join (codes " ") (take (min hit.cut_word (length words)) words), hit)

-- `trim`.
unfoldable pub trim : Text → Option (Text × RepetitionHit)
trim text = kept_of text (analyze text)
