-- ===== src/Sse/Wire.antt =====
-- What an event stream looks like on the wire, and what `parse_frame` makes of its lines.
use mathlib.Core.List.{append-nil, append_assoc}
use heterion_router.Prelude.{
  ℕ, ◌<◌, ◌≡◌, ◌≢◌, refl, ◌∙◌, ap, Option, none, some, List, [], ◌∷◌, ◌++◌, map, Text, codes,
  starts_with, strip_prefix, arith, ◌⊎◌, inl, inr,
}
use heterion_router.Prelude.Whitespace.{trim, lines, join, is_whitespace, OneLine, lines_one}
use heterion_router.Sse.{SseEvent, Parsed, parse_frame, parse_lines, parse_line, parse_result}

abbrev pub All {ℓ κ} : {A : Type ℓ} → (A → Type κ) → List A → Type κ
All P [] = Unit
All P (x ∷ xs) = P x × All P xs

abbrev pub unlines : List Text → Text
unlines [] = []
unlines (l ∷ ls) = l ++ 10 ∷ unlines ls

pub lines-unlines : (ls : List Text) → All OneLine ls → lines (unlines ls) ≡ ls
lines-unlines [] h = unfold lines in refl
lines-unlines (l ∷ ls) h = lines_one l (unlines ls) h.0 ∙ ap (◌∷◌ l) (lines-unlines ls h.1)

-- Text of one line in ASCII.
abbrev pub Plain : Text → Type 0
Plain s = OneLine s × All (λ c. c < 128) s

-- What is written: an optional event name and the lines of the data.
pub record Message : Type 0 where
  pub name : Option Text
  pub data_lines : List Text

abbrev pub data_line : Text → Text
data_line s = codes "data: " ++ s

abbrev pub name_line : Option Text → List Text
name_line none = []
name_line (some n) = (codes "event: " ++ n) ∷ []

abbrev pub wire_lines : Message → List Text
wire_lines m = name_line m.name ++ map data_line m.data_lines

-- A message as it stands in an event stream: a line for each field, and a blank line.
abbrev pub encode : Message → List ℕ
encode m = unlines (wire_lines m) ++ 10 ∷ []

abbrev pub encode_all : List Message → List ℕ
encode_all [] = []
encode_all (m ∷ ms) = encode m ++ encode_all ms

abbrev pub event_of : Message → SseEvent
event_of m = record { event = m.name; payload = join (10 ∷ []) m.data_lines }

abbrev pub IsName : Option Text → Type 0
IsName none = Unit {0}
IsName (some n) = Plain n × (trim n ≡ n)

-- One-line ASCII fields, a name with no white space at its ends, and a field at least.
pub record IsMessage (m : Message) : Type 0 where
  pub plain_name : IsName m.name
  pub plain_data : All Plain m.data_lines
  pub some_field : (m.name ≢ none) ⊎ (m.data_lines ≢ [])

parse_line_name :
    (p : Parsed) (n : Text)
    → trim n ≡ n
    → parse_line p (codes "event: " ++ n) ≡ record p { event = some n }
unfolding parse_line trim starts_with strip_prefix is_whitespace
parse_line_name p n h = ap (λ name. record p { event = some name }) h

parse_line_data :
    (p : Parsed) (s : Text)
    → parse_line p (data_line s) ≡ record p { data_lines = p.data_lines ++ s ∷ [] }
unfolding parse_line starts_with strip_prefix
parse_line_data p s = refl

parse_lines_data :
    (p : Parsed) (ss : List Text)
    → parse_lines p (map data_line ss) ≡ record p { data_lines = p.data_lines ++ ss }
unfolding parse_lines
parse_lines_data p [] = rw append-nil
parse_lines_data p (s ∷ ss) =
    ap (λ q. parse_lines q (map data_line ss)) (parse_line_data p s)
    ∙ parse_lines_data (record p { data_lines = p.data_lines ++ s ∷ [] }) ss
    ∙ ap (λ ds. record p { data_lines = ds }) (append_assoc p.data_lines (s ∷ []) ss)

OneLine-append : (s t : Text) → OneLine s → OneLine t → OneLine (s ++ t)
OneLine-append [] t h k = k
OneLine-append (c ∷ s) t h k = (h.0, h.1, OneLine-append s t h.2 k)

ascii-append :
    (s t : Text) → All (λ c. c < 128) s → All (λ c. c < 128) t → All (λ c. c < 128) (s ++ t)
ascii-append [] t h k = k
ascii-append (c ∷ s) t h k = (h.0, ascii-append s t h.1 k)

Plain-append : (s t : Text) → Plain s → Plain t → Plain (s ++ t)
Plain-append s t h k = (OneLine-append s t h.0 k.0, ascii-append s t h.1 k.1)

-- A line of the wire format.
abbrev pub IsField : Text → Type 0
IsField l = Plain l × (l ≢ [])

data_lines-IsField : (ss : List Text) → All Plain ss → All IsField (map data_line ss)
data_lines-IsField [] h = tt
data_lines-IsField (s ∷ ss) h =
    ((Plain-append (codes "data: ") s (omega arith) h.0, λ e. cc), data_lines-IsField ss h.1)

pub wire_lines-IsField :
    (name : Option Text) (ss : List Text)
    → IsName name
    → All Plain ss
    → All IsField (name_line name ++ map data_line ss)
wire_lines-IsField none ss n h = data_lines-IsField ss h
wire_lines-IsField (some name) ss n h =
    ((Plain-append (codes "event: ") name (omega arith) n.0, λ e. cc), data_lines-IsField ss h)

one_lines : (ls : List Text) → All IsField ls → All OneLine ls
one_lines [] h = tt
one_lines (l ∷ ls) h = (h.0.0.0, one_lines ls h.1)

abbrev no_field : Parsed
no_field = record { event = none; data_lines = [] }

parse_wire :
    (name : Option Text) (ss : List Text)
    → IsName name
    → parse_lines no_field (name_line name ++ map data_line ss)
      ≡ record { event = name; data_lines = ss }
unfolding parse_lines
parse_wire none ss n = parse_lines_data no_field ss
parse_wire (some name) ss n =
    ap (λ q. parse_lines q (map data_line ss)) (parse_line_name no_field name n.1)
    ∙ parse_lines_data (record { event = some name; data_lines = [] }) ss

parse_result_lem :
    (name : Option Text) (ss : List Text)
    → (name ≢ none) ⊎ (ss ≢ [])
    → parse_result name ss ≡ some (record { event = name; payload = join (10 ∷ []) ss })
parse_result_lem none [] (inl h) = absurd (h refl)
parse_result_lem none [] (inr h) = absurd (h refl)
parse_result_lem none (s ∷ ss) h = refl
parse_result_lem (some name) ss h = refl

pub parse_frame-wire :
    (m : Message) → IsMessage m → parse_frame (unlines (wire_lines m)) ≡ some (event_of m)
unfolding parse_frame
parse_frame-wire m h =
    rw
      (
        lines-unlines (wire_lines m) (
            one_lines (wire_lines m)
              (wire_lines-IsField m.name m.data_lines h.plain_name h.plain_data)),
        parse_wire m.name m.data_lines h.plain_name,
      )
      (parse_result_lem m.name m.data_lines h.some_field)
