-- ===== src/Pump/Normalize.antt =====
-- Tool calls with the full OpenAI contract: `ToolCallMeta` and `normalize_tool_call_deltas` in
-- crates/heterion-router-gateway/src/backend.rs. A value that the code changes in place is given back;
-- the map from the index of a call is an association list.
use heterion_router.Prelude.{
  ℕ, ◌+◌, Bool, Option, none, some, List, [], ◌∷◌, ◌++◌, Text, codes, is_empty, ◌==◌, if◌then◌else◌,
}
use heterion_router.Json.{
  Value, Items, Fields, null, bool, number, string, array, object, get_field, insert_field, as_str,
  as_u64, and_then, unwrap_or,
}
use heterion_router.Translate.Int.{pos, show_int}

pub record ToolCallMeta : Type 0 where
  pub id : Text
  pub name : Text

-- `ToolCallIds`.
abbrev pub ToolCallIds : Type 0
ToolCallIds = List (ℕ × ToolCallMeta)

unfoldable pub meta_at : ℕ → ToolCallIds → ToolCallMeta
meta_at i [] = record { id = []; name = [] }
meta_at i ((j, m) ∷ seen) = let rest = meta_at i seen in if j == i then m else rest

unfoldable pub put_meta : ℕ → ToolCallMeta → ToolCallIds → ToolCallIds
put_meta i m [] = (i, m) ∷ []
put_meta i m ((j, n) ∷ seen) =
    let rest = put_meta i m seen in if j == i then (i, m) ∷ seen else (j, n) ∷ rest

-- What is remembered of a text: what the call says, or else what was said, or else a stand-in.
abbrev pub or_stand_in : Text → Text → Text
or_stand_in known stand_in = if is_empty known then stand_in else known

abbrev pub said_or : Option Text → Text → Text
said_or none known = known
said_or (some said) known = if is_empty said then known else said

abbrev pub known_or : Option Value → Text → Text → Text
known_or said known stand_in = or_stand_in (said_or (and_then said as_str) known) stand_in

abbrev pub is_string : Option Value → Bool
is_string none = Bool.false
is_string (some (string s)) = Bool.true
is_string (some null) = Bool.false
is_string (some (bool b)) = Bool.false
is_string (some (number n)) = Bool.false
is_string (some (array vs)) = Bool.false
is_string (some (object fs)) = Bool.false

abbrev pub with_arguments : Fields → Fields
with_arguments function =
    if is_string (get_field (codes "arguments") function)
    then function
    else insert_field (codes "arguments") (string []) function

abbrev pub with_name : Text → Fields → Fields
with_name name function = with_arguments (insert_field (codes "name") (string name) function)

-- `format!("call_{index}")` and `format!("tool_{index}")`.
abbrev pub stand_in : Text → ℕ → Text
stand_in prefix index = prefix ++ show_int (pos index)

-- The function of a call, which becomes an empty object where there is none.
abbrev pub on_function : ToolCallIds → ℕ → Text → Text → Fields → Value → ToolCallIds × Fields
on_function seen index id known call (object function) =
    let name =
      known_or (get_field (codes "name") function) known (stand_in (codes "tool_") index) in
    (
      put_meta index (record { id = id; name = name }) seen,
      insert_field (codes "type") (string (codes "function"))
          (insert_field (codes "function") (object (with_name name function)) call),
    )
on_function seen index id known call null =
    (put_meta index (record { id = id; name = known }) seen, call)
on_function seen index id known call (bool b) =
    (put_meta index (record { id = id; name = known }) seen, call)
on_function seen index id known call (number n) =
    (put_meta index (record { id = id; name = known }) seen, call)
on_function seen index id known call (string s) =
    (put_meta index (record { id = id; name = known }) seen, call)
on_function seen index id known call (array vs) =
    (put_meta index (record { id = id; name = known }) seen, call)

abbrev pub call_index_of : ℕ → Fields → ℕ
call_index_of position call = unwrap_or (and_then (get_field (codes "index") call) as_u64) position

-- One call, an object: its id, then its function.
unfoldable pub normalize_call : ToolCallIds → ℕ → Fields → ToolCallIds × Fields
normalize_call seen index call =
    let meta = meta_at index seen in
    let id = known_or (get_field (codes "id") call) meta.id (stand_in (codes "call_") index) in
    on_function seen index id meta.name (insert_field (codes "id") (string id) call)
      (unwrap_or (get_field (codes "function") call) (object Fields.end))

abbrev pub as_object_value : ToolCallIds × Fields → ToolCallIds × Value
as_object_value (seen, fs) = (seen, object fs)

-- `as_object_mut`: only an object is changed.
abbrev pub on_object :
    (ToolCallIds → Fields → ToolCallIds × Fields) → ToolCallIds → Value → ToolCallIds × Value
on_object f seen (object fs) = as_object_value (f seen fs)
on_object f seen null = (seen, null)
on_object f seen (bool b) = (seen, bool b)
on_object f seen (number n) = (seen, number n)
on_object f seen (string s) = (seen, string s)
on_object f seen (array vs) = (seen, array vs)

abbrev pub cons_item : Value → ToolCallIds × Items → ToolCallIds × Items
cons_item v (seen, vs) = (seen, Items.cons v vs)

-- The loop over the values of an array, with their positions.
unfoldable pub each :
    (ℕ → ToolCallIds → Value → ToolCallIds × Value) → ℕ → ToolCallIds → Items → ToolCallIds × Items
each f position seen Items.nil = (seen, Items.nil)
each f position seen (Items.cons v vs) =
    let r = f position seen v in cons_item r.1 (each f (position + 1) r.0 vs)

abbrev pub as_array_value : ToolCallIds × Items → ToolCallIds × Value
as_array_value (seen, vs) = (seen, array vs)

-- `as_array_mut` and its loop.
abbrev pub on_array :
    (ℕ → ToolCallIds → Value → ToolCallIds × Value) → ToolCallIds → Value → ToolCallIds × Value
on_array f seen (array vs) = as_array_value (each f 0 seen vs)
on_array f seen null = (seen, null)
on_array f seen (bool b) = (seen, bool b)
on_array f seen (number n) = (seen, number n)
on_array f seen (string s) = (seen, string s)
on_array f seen (object fs) = (seen, object fs)

abbrev pub put_field : Text → Fields → ToolCallIds × Value → ToolCallIds × Fields
put_field key fs (seen, v) = (seen, insert_field key v fs)

abbrev pub on_some :
    (ToolCallIds → Value → ToolCallIds × Value)
    → Text
    → ToolCallIds
    → Fields
    → Option Value
    → ToolCallIds × Fields
on_some f key seen fs none = (seen, fs)
on_some f key seen fs (some v) = put_field key fs (f seen v)

-- `get_mut(key)`.
abbrev pub at_key :
    (ToolCallIds → Value → ToolCallIds × Value) → Text → ToolCallIds → Value → ToolCallIds × Value
at_key f key = on_object (λ seen fs. on_some f key seen fs (get_field key fs))

abbrev pub each_call : ℕ → ToolCallIds → Value → ToolCallIds × Value
each_call position = on_object (λ seen call. normalize_call seen (call_index_of position call) call)

abbrev pub each_choice : ℕ → ToolCallIds → Value → ToolCallIds × Value
each_choice position = at_key (at_key (on_array each_call) (codes "tool_calls")) (codes "delta")

unfoldable pub normalize_tool_call_deltas : ToolCallIds → Value → ToolCallIds × Value
normalize_tool_call_deltas seen chunk = at_key (on_array each_choice) (codes "choices") seen chunk
