-- ===== src/Prelude/Whitespace.antt =====
-- The string operations of the standard library that look at white space, lines and widths.
use Prim.Native.Nat.{ℕ, ◌+◌}
use mathlib.Core.Bool.{Bool, ◌&&◌, ◌||◌}
use mathlib.Core.Path.{◌≡◌, refl}
use mathlib.Core.Logic.{◌≢◌}
use mathlib.Core.List.{List, [], ◌∷◌, ◌++◌, reverse, reverse-cons, append-nil, append_assoc}
use native.Mathlib.Omega.{arith}
use heterion_router.Prelude.Tests.{◌==◌, leb, ltb, if◌then◌else◌}
use heterion_router.Prelude.Strings.{Text}

-- `char::is_whitespace`: the code points with the Unicode property White_Space.
unfoldable pub is_whitespace : ℕ → Bool
is_whitespace c =
    leb 9 c && leb c 13
    || c == 32
    || c == 0x85
    || c == 0xa0
    || c == 0x1680
    || leb 0x2000 c && leb c 0x200a
    || c == 0x2028
    || c == 0x2029
    || c == 0x202f
    || c == 0x205f
    || c == 0x3000

unfoldable pub trim_start : Text → Text
trim_start [] = []
trim_start (c ∷ s) = let rest = trim_start s in if is_whitespace c then rest else c ∷ s

-- `str::trim`.
unfoldable pub trim : Text → Text
unfolding trim_start
trim s = reverse (trim_start (reverse (trim_start s)))

-- The bytes of a code point in UTF-8.
abbrev pub utf8_width : ℕ → ℕ
utf8_width c = if ltb c 0x80 then 1 else if ltb c 0x800 then 2 else if ltb c 0x10000 then 3 else 4

-- `str::len`, in bytes.
unfoldable pub utf8_len : Text → ℕ
utf8_len [] = 0
utf8_len (c ∷ s) = utf8_width c + utf8_len s

-- `[&str]::join`.
unfoldable pub join : Text → List Text → Text
join sep [] = []
join sep (s ∷ []) = s
join sep (s ∷ t ∷ ts) = s ++ sep ++ join sep (t ∷ ts)

-- The text up to a line feed, each line without a carriage return at its end; the text behind the
-- last line feed is a line unless it is empty.
abbrev strip_cr : Text → Text
strip_cr [] = []
strip_cr (c ∷ s) = if c == 13 then reverse s else reverse (c ∷ s)

abbrev last_line : Text → List Text
last_line [] = []
last_line (c ∷ acc) = reverse (c ∷ acc) ∷ []

lines_from : Text → Text → List Text
lines_from acc [] = last_line acc
lines_from acc (c ∷ s) = if c == 10 then strip_cr acc ∷ lines_from [] s else lines_from (c ∷ acc) s

-- `str::lines`.
unfoldable pub lines : Text → List Text
unfolding lines_from
lines s = lines_from [] s

split_from : Text → Text → List Text
split_from acc [] = reverse acc ∷ []
split_from acc (c ∷ s) =
    if is_whitespace c then reverse acc ∷ split_from [] s else split_from (c ∷ acc) s

drop_empty : List Text → List Text
drop_empty [] = []
drop_empty ([] ∷ ts) = drop_empty ts
drop_empty ((c ∷ s) ∷ ts) = (c ∷ s) ∷ drop_empty ts

-- `str::split_whitespace`: the maximal pieces with no white space.
unfoldable pub split_whitespace : Text → List Text
unfolding split_from drop_empty is_whitespace
split_whitespace s = drop_empty (split_from [] s)

-- A line with no line feed and no carriage return.
abbrev pub OneLine : Text → Type 0
OneLine [] = Unit {0}
OneLine (c ∷ s) = (c ≢ 10) × (c ≢ 13) × OneLine s

abbrev NoCr : Text → Type 0
NoCr [] = Unit {0}
NoCr (c ∷ acc) = c ≢ 13

strip_cr_lem : (acc : Text) → NoCr acc → strip_cr acc ≡ reverse acc
strip_cr_lem [] h = refl
strip_cr_lem (c ∷ acc) h = ground arith

lines_from_one :
    (acc l s : Text)
    → NoCr acc
    → OneLine l
    → lines_from acc (l ++ 10 ∷ s) ≡ (reverse acc ++ l) ∷ lines_from [] s
unfolding lines_from
lines_from_one acc [] s n h = rw (strip_cr_lem acc n, append-nil)
lines_from_one acc (c ∷ l) s n h = ground (
  arith,
  lines_from_one (c ∷ acc) l s h.1 h.2,
  reverse-cons c acc,
  append_assoc (reverse acc) (c ∷ []) l,
)

-- The first of several lines, each ended by a line feed.
pub lines_one : (l s : Text) → OneLine l → lines (l ++ 10 ∷ s) ≡ l ∷ lines s
unfolding lines
lines_one l s h = lines_from_one [] l s tt h
