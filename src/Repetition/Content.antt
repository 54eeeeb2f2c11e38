-- ===== src/Repetition/Content.antt =====
-- Cutting a finished response: `content_text`, `set_trimmed_content` and `apply_to_response` in
-- crates/heterion-router-gateway/src/repetition_guard.rs, lines 218-283. Of a choice, the model keeps
-- what the guard reads or writes.
use heterion_router.Prelude.{
  ◌≡◌, refl, ap, Bool, true, false, Option, none, some, List, [], ◌∷◌, Text, codes, text_eq,
  text_eq_iff, arith, if◌then◌else◌,
}
use heterion_router.Prelude.Whitespace.{join}
use heterion_router.Json.{
  Value, Items, Fields, null, bool, number, string, array, object, get, get_field, insert_field,
  as_str, and_then,
}
use heterion_router.Repetition.{RepetitionHit, trim}

abbrev is_text_type : Option Text → Bool
is_text_type none = false
is_text_type (some t) = text_eq t (codes "text")

-- `part.get("type").and_then(Value::as_str) == Some("text")`.
abbrev pub is_text : Value → Bool
is_text part = is_text_type (and_then (get (codes "type") part) as_str)

abbrev cons_text : Option Text → List Text → List Text
cons_text none ts = ts
cons_text (some t) ts = t ∷ ts

unfoldable pub texts : Items → List Text
texts Items.nil = []
texts (Items.cons part parts) =
    let rest = texts parts in
    if is_text part then cons_text (and_then (get (codes "text") part) as_str) rest else rest

-- `content_text`.
unfoldable pub content_text : Value → Text
content_text (string text) = text
content_text (array parts) = join (codes " ") (texts parts)
content_text null = []
content_text (bool b) = []
content_text (number n) = []
content_text (object fs) = []

-- `part["text"] = …`: on an object it is an insertion.
abbrev pub set_text : Value → Text → Value
set_text (object fs) t = object (insert_field (codes "text") (string t) fs)
set_text null t = null
set_text (bool b) t = bool b
set_text (number n) t = number n
set_text (string s) t = string s
set_text (array vs) t = array vs

-- The loop of `set_trimmed_content`, with its flag `written`.
unfoldable pub set_parts : Bool → Text → Items → Items
set_parts written trimmed Items.nil = Items.nil
set_parts written trimmed (Items.cons part parts) =
    let untouched = set_parts written trimmed parts in
    let after = set_parts true trimmed parts in
    if is_text part
    then Items.cons (set_text part (if written then [] else trimmed)) after
    else Items.cons part untouched

-- `set_trimmed_content`.
unfoldable pub set_trimmed_content : Value → Text → Value
set_trimmed_content (string text) trimmed = string trimmed
set_trimmed_content (array parts) trimmed = array (set_parts false trimmed parts)
set_trimmed_content null trimmed = null
set_trimmed_content (bool b) trimmed = bool b
set_trimmed_content (number n) trimmed = number n
set_trimmed_content (object fs) trimmed = object fs

pub record Choice : Type 0 where
  pub content : Option Value
  pub reasoning_content : Option Text
  pub finish_reason : Text

abbrev cut_content_with :
    Choice → Value → Option (Text × RepetitionHit) → Choice × Option RepetitionHit
cut_content_with c content none = (c, none)
cut_content_with c content (some (trimmed, hit)) = (
  record c { content = some (set_trimmed_content content trimmed); finish_reason = codes "length" },
  some hit,
)

-- The first `if let` over a choice, with what it found.
abbrev pub cut_content : Choice → Option Value → Choice × Option RepetitionHit
cut_content c none = (c, none)
cut_content c (some content) = cut_content_with c content (trim (content_text content))

abbrev cut_reasoning_with : Choice → Option (Text × RepetitionHit) → Choice × Option RepetitionHit
cut_reasoning_with c none = (c, none)
cut_reasoning_with c (some (trimmed, hit)) = (
  record c { reasoning_content = some trimmed },
  some (record hit { source = codes "reasoning" }),
)

-- The second `if let` over a choice.
abbrev pub cut_reasoning : Choice → Option Text → Choice × Option RepetitionHit
cut_reasoning c none = (c, none)
cut_reasoning c (some reasoning) = cut_reasoning_with c (trim reasoning)

abbrev pub first_hit : Option RepetitionHit → Option RepetitionHit → Option RepetitionHit
first_hit none later = later
first_hit (some hit) later = some hit

-- The loop of `apply_to_response` over the choices, with its `found`.
unfoldable pub apply_choices :
    Option RepetitionHit → List Choice → List Choice × Option RepetitionHit
apply_choices found [] = ([], found)
apply_choices found (c ∷ cs) =
    let (c1, by_content) = cut_content c c.content in
    let (c2, by_reasoning) = cut_reasoning c1 c1.reasoning_content in
    let (rest, last) = apply_choices (first_hit (first_hit by_content found) by_reasoning) cs in
    (c2 ∷ rest, last)

-- `apply_to_response`.
unfoldable pub apply_to_response : List Choice → List Choice × Option RepetitionHit
apply_to_response choices = apply_choices none choices

-- The parts that are no text.
unfoldable pub other_parts : Items → List Value
other_parts Items.nil = []
other_parts (Items.cons part parts) =
    let rest = other_parts parts in if is_text part then rest else part ∷ rest

field-set :
    (k j : Text) (v : Value) (fs : Fields)
    → text_eq k j ≡ false
    → get_field j (insert_field k v fs) ≡ get_field j fs
unfolding get_field insert_field
field-set k j v Fields.end h = ground (arith, h)
field-set k j v (Fields.field i w fs) h =
    ground (arith, text_eq_iff k j, text_eq_iff i k, text_eq_iff i j, field-set k j v fs h)

is_text-set : (v : Value) (t : Text) → is_text (set_text v t) ≡ is_text v
unfolding text_eq
is_text-set (object fs) t =
    ap (λ o. is_text_type (and_then o as_str))
      (field-set (codes "text") (codes "type") (string t) fs refl)
is_text-set null t = refl
is_text-set (bool b) t = refl
is_text-set (number n) t = refl
is_text-set (string s) t = refl
is_text-set (array vs) t = refl

part_choice :
    (b : Bool) (part changed : Value) (after untouched parts : Items)
    → is_text part ≡ b
    → is_text changed ≡ is_text part
    → other_parts after ≡ other_parts parts
    → other_parts untouched ≡ other_parts parts
    → other_parts (if b then Items.cons changed after else Items.cons part untouched)
      ≡ other_parts (Items.cons part parts)
unfolding other_parts
part_choice true part changed after untouched parts e c ha hu = rw (c, e) ha
part_choice false part changed after untouched parts e c ha hu = rw (e, hu) refl

other_parts-set :
    (written : Bool) (trimmed : Text) (parts : Items)
    → other_parts (set_parts written trimmed parts) ≡ other_parts parts
unfolding set_parts
other_parts-set written trimmed Items.nil = refl
other_parts-set written trimmed (Items.cons part parts) =
    part_choice (is_text part) part (set_text part (if written then [] else trimmed))
      (set_parts true trimmed parts) (set_parts written trimmed parts) parts refl
      (is_text-set part (if written then [] else trimmed)) (other_parts-set true trimmed parts)
      (other_parts-set written trimmed parts)

-- The parts of a content that are no text, in their order.
abbrev pub others : Value → List Value
others (array parts) = other_parts parts
others null = []
others (bool b) = []
others (number n) = []
others (string s) = []
others (object fs) = []

-- Cutting the text of an answer keeps every part that is no text, such as an image, unchanged and in
-- its place among them.
pub others-set_trimmed_content :
    (content : Value) (trimmed : Text)
    → others (set_trimmed_content content trimmed) ≡ others content
unfolding set_trimmed_content
others-set_trimmed_content (array parts) trimmed = other_parts-set false trimmed parts
others-set_trimmed_content null trimmed = refl
others-set_trimmed_content (bool b) trimmed = refl
others-set_trimmed_content (number n) trimmed = refl
others-set_trimmed_content (string s) trimmed = refl
others-set_trimmed_content (object fs) trimmed = refl
