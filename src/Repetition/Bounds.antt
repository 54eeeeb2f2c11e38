-- ===== src/Repetition/Bounds.antt =====
-- Where the loop that the guard finds begins.
use heterion_router.Prelude.{
  ℕ, suc, ◌+◌, ◌-◌, ◌≤◌, ◌<◌, ◌≡◌, refl, sym, ◌∙◌, Bool, true, false, Option, none, some, List, [],
  ◌∷◌, Text, text_eq_refl, ltb, if◌then◌else◌, length, arith, Nat-cases, inl, inr,
}
use heterion_router.Prelude.Whitespace.{split_whitespace}
use heterion_router.Repetition.{
  ngram, RepetitionHit, windows, words_eq, count_of, increment, count_or_zero, one_more, better,
  best_window, position, start_of, loop_start, analyze,
}
use heterion_router.Repetition.Guard.{verdict, few_words, analyze-hit}
use mathlib.Core.List.{Memᴰ}

words_eq_refl : (ws : List Text) → words_eq ws ws ≡ true
unfolding words_eq
words_eq_refl [] = refl
words_eq_refl (w ∷ ws) = ground (arith, text_eq_refl w, words_eq_refl ws)

length-windows : (ws : List Text) → length (windows ws) ≡ length ws - 7
unfolding windows
length-windows [] = omega arith
length-windows (w ∷ ws) = ground (arith, length-windows ws)

-- A position is a place in the list.
abbrev Within : Option ℕ → ℕ → Type 0
Within none n = ⊥
Within (some i) n = i < n

one_more-Within : (o : Option ℕ) (n : ℕ) → Within o n → Within (one_more o) (suc n)
one_more-Within none n h = elim h [ ]
one_more-Within (some i) n h = omega (arith, h)

choice-Within :
    (b : Bool) (o : Option ℕ) (n : ℕ)
    → Within o n
    → Within (if b then some 0 else one_more o) (suc n)
choice-Within true o n h = omega arith
choice-Within false o n h = one_more-Within o n h

position-Within :
    (w : List Text) (ws : List (List Text)) → Memᴰ w ws → Within (position w ws) (length ws)
unfolding position
position-Within w [] m = elim m [ ]
position-Within w (v ∷ ws) (Memᴰ.head e) = rw (sym e, words_eq_refl w) (omega arith)
position-Within w (v ∷ ws) (Memᴰ.tail m) =
    choice-Within (words_eq v w) (position w ws) (length ws) (position-Within w ws m)

-- The best window so far is one of them.
abbrev IsBest : List (List Text) → Option (List Text × ℕ) → Type 0
IsBest ws none = ⊥
IsBest ws (some (w, n)) = Memᴰ w ws

better-IsBest :
    (ws : List (List Text)) (o : Option (List Text × ℕ)) (w : List Text) (n : ℕ)
    → IsBest ws o
    → Memᴰ w ws
    → IsBest ws (better o w n)
better-IsBest ws none w n h m = elim h [ ]
better-IsBest ws (some (b, k)) w n h m =
    elim (ltb k n) as (λ c. IsBest ws (if c then some (w, n) else some (b, k))) [
      | true ↦ m
      | false ↦ h
    ]

best_window-IsBest :
    (all : List (List Text)) (counts : List (List Text × ℕ)) (best : Option (List Text × ℕ))
    (ws : List (List Text))
    → ((w : List Text) → Memᴰ w ws → Memᴰ w all)
    → IsBest all best
    → IsBest all (best_window counts best ws)
unfolding best_window
best_window-IsBest all counts best [] sub h = h
best_window-IsBest all counts best (w ∷ ws) sub h =
    best_window-IsBest all (increment w counts)
      (better best w (count_or_zero (count_of w (increment w counts)))) ws
      (λ v m. sub v (Memᴰ.tail m))
      (better-IsBest all best w (count_or_zero (count_of w (increment w counts))) h
        (sub w (Memᴰ.head refl)))

first-IsBest :
    (w : List Text) (ws : List (List Text)) → IsBest (w ∷ ws) (best_window [] none (w ∷ ws))
unfolding best_window
first-IsBest w ws =
    best_window-IsBest (w ∷ ws) (increment w [])
      (some (w, count_or_zero (count_of w (increment w [])))) ws (λ v m. Memᴰ.tail m)
      (Memᴰ.head refl)

Within-count : (o : Option ℕ) (n : ℕ) → Within o n → count_or_zero o < n
Within-count none n h = elim h [ ]
Within-count (some i) n h = h

start_lem :
    (ws : List (List Text)) (o : Option (List Text × ℕ)) → IsBest ws o → start_of ws o < length ws
start_lem ws none h = elim h [ ]
start_lem ws (some (w, n)) h = Within-count (position w ws) (length ws) (position-Within w ws h)

start_in :
    (ws : List (List Text)) → 1 ≤ length ws → start_of ws (best_window [] none ws) < length ws
start_in [] h = absurd (omega (arith, h))
start_in (w ∷ ws) h = start_lem (w ∷ ws) (best_window [] none (w ∷ ws)) (first-IsBest w ws)

loop_start_in : (words : List Text) → ngram ≤ length words → loop_start words + ngram ≤ length words
unfolding loop_start
loop_start_in words h = omega (
  arith,
  start_in (windows words) (omega (arith, length-windows words, h)),
  length-windows words,
  h,
)

-- What a hit says of the words that were looked at.
abbrev InBounds : ℕ → RepetitionHit → Type 0
InBounds n hit = (hit.cut_word + ngram ≤ hit.total_words) × (hit.total_words ≡ n)

found_eq : {x y : RepetitionHit} → some x ≡ some y → x ≡ y
found_eq e = cc e

choice_hit :
    (b : Bool) (x hit : RepetitionHit) (n : ℕ)
    → (if b then some x else none) ≡ some hit
    → InBounds n x
    → InBounds n hit
choice_hit true x hit n e h = rw (sym (found_eq e)) h
choice_hit false x hit n e h = absurd (cc e)

long_of_hit :
    (words : List Text) (hit : RepetitionHit) → verdict words ≡ some hit → ngram ≤ length words
long_of_hit words hit e = elim (Nat-cases (length words) ngram) [
  | inl h ↦ absurd (cc (few_words words h, e))
  | inr h ↦ h
]

verdict_in :
    (words : List Text) (hit : RepetitionHit)
    → verdict words ≡ some hit
    → InBounds (length words) hit
verdict_in words hit e =
    choice_hit _ _ hit (length words) e (loop_start_in words (long_of_hit words hit e), refl)

-- A loop that `analyze` reports begins at a whole window of eight words inside the text, so that
-- the kept front is shorter than the text by eight words at least.
pub analyze-in_bounds :
    (text : Text) (hit : RepetitionHit)
    → analyze text ≡ some hit
    → (hit.cut_word + ngram ≤ hit.total_words) × (hit.total_words ≡ length (split_whitespace text))
analyze-in_bounds text hit e = verdict_in (split_whitespace text) hit (sym (analyze-hit text) ∙ e)
