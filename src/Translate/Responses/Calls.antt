-- ===== src/Translate/Responses/Calls.antt =====
-- The function calls of the Responses API stream adapter: the arms of `convert_event` in
-- crates/heterion-router-translate/src/responses.rs for `output_item.added`,
-- `function_call_arguments.delta` and `output_item.done`.
use heterion_router.Prelude.{
  ℕ, ◌+◌, Bool, Option, none, some, List, [], ◌∷◌, ◌++◌, Text, codes, text_eq, is_empty, lookup,
  insert, if◌then◌else◌,
}
use heterion_router.Prelude.Whitespace.{trim}
use heterion_router.Json.{
  Value, Items, string, array, object, fields, get, as_str, and_then, unwrap_or,
}
use heterion_router.Translate.Int.{ℤ, pos, int_eq, as_i64, show_int, wrap32}
use heterion_router.Translate.Chunk.{json_nat}
use heterion_router.Translate.Responses.{
  ToolCallEntry, ResponsesState, Converted, ignore, tool_chunk, or_text,
}

-- `HashMap::remove`.
unfoldable pub remove_call : Text → List (Text × ToolCallEntry) → List (Text × ToolCallEntry)
remove_call key [] = []
remove_call key ((j, entry) ∷ m) =
    let rest = remove_call key m in if text_eq j key then rest else (j, entry) ∷ rest

unfoldable pub call_at : ℤ → List (ℤ × Text) → Option Text
call_at i [] = none
call_at i ((j, call_id) ∷ m) = let rest = call_at i m in if int_eq j i then some call_id else rest

unfoldable pub insert_at : ℤ → Text → List (ℤ × Text) → List (ℤ × Text)
insert_at i call_id [] = (i, call_id) ∷ []
insert_at i call_id ((j, other) ∷ m) =
    let rest = insert_at i call_id m in if int_eq j i then (i, call_id) ∷ m else (j, other) ∷ rest

abbrev pub text_at : Text → Value → Text
text_at key v = unwrap_or (and_then (get key v) as_str) []

abbrev pub name_of : Value → Text
name_of item = trim (text_at (codes "name") item)

-- `fallback_call_id`: a u64 that counts events has few digits.
unfoldable pub fallback_call_id : ResponsesState → ResponsesState × Text
fallback_call_id s = (
  record s { fallback_seq = s.fallback_seq + 1 },
  codes "call_fallback_" ++ show_int (pos (s.fallback_seq + 1)),
)

abbrev pub is_function_call : Value → Bool
is_function_call item = text_eq (text_at (codes "type") item) (codes "function_call")

abbrev pub link_item : Option Text → Text → List (Text × Text) → List (Text × Text)
link_item none call_id m = m
link_item (some item_id) call_id m = insert item_id call_id m

abbrev pub link_index : Option ℤ → Text → List (ℤ × Text) → List (ℤ × Text)
link_index none call_id m = m
link_index (some i) call_id m = insert_at i call_id m

-- The two reverse maps and the most recent call.
abbrev pub linked : ResponsesState → Value → Value → Text → ResponsesState
linked s payload item call_id = record s {
  item_to_call = link_item (and_then (get (codes "id") item) as_str) call_id s.item_to_call;
  output_index_to_call =
      link_index (and_then (get (codes "output_index") payload) as_i64) call_id
        s.output_index_to_call;
  current_tool_call = some call_id;
}

abbrev pub new_entry : Text → ToolCallEntry
new_entry name = record { index = none; name = name; args = [] }

abbrev pub put_entry : ResponsesState → Text → ToolCallEntry → ResponsesState
put_entry s call_id entry = record s { tool_calls = insert call_id entry s.tool_calls }

-- The index of an entry, or the state's next one.
abbrev pub indexed : ResponsesState → Text → ToolCallEntry → Option ℕ → ResponsesState × ℕ
indexed s call_id entry (some n) = (put_entry s call_id entry, n)
indexed s call_id entry none = (
  record (put_entry s call_id (record entry { index = some s.tool_call_index })) {
    tool_call_index = wrap32 (s.tool_call_index + 1);
  },
  s.tool_call_index,
)

abbrev pub opening : ℕ → Text → Text → Value
opening n call_id name = array (
    Items.cons
      (object (
        fields (
          (codes "index", json_nat n)
          ∷ (codes "id", string call_id)
          ∷ (codes "type", string (codes "function"))
          ∷ (
            codes "function",
            object (fields ((codes "name", string name) ∷ (codes "arguments", string []) ∷ [])),
          )
          ∷ [])))
      Items.nil)

abbrev pub emit_opening : Text → Text → ResponsesState × ℕ → ResponsesState × Converted
emit_opening call_id name (s, n) = tool_chunk s (opening n call_id name)

-- The entry with its name: one without a name waits.
abbrev pub announce_call : ResponsesState → Text → Text → ToolCallEntry → ResponsesState × Converted
announce_call s call_id name entry =
    let waiting : ResponsesState × Converted = (put_entry s call_id entry, ignore) in
    if is_empty name
    then waiting
    else emit_opening call_id name (indexed s call_id entry entry.index)

abbrev pub renamed : Text → ToolCallEntry → ToolCallEntry
renamed name entry = record entry { name = name }

abbrev pub add_call : Value → Value → ResponsesState × Text → ResponsesState × Converted
add_call payload item (s, call_id) =
    announce_call (linked s payload item call_id) call_id (name_of item)
      (renamed (name_of item) (unwrap_or (lookup call_id s.tool_calls) (new_entry (name_of item))))

abbrev pub given_or_fallback : ResponsesState → Text → ResponsesState × Text
given_or_fallback s call_id = if is_empty call_id then fallback_call_id s else (s, call_id)

abbrev pub added_item : ResponsesState → Value → Option Value → ResponsesState × Converted
added_item s payload none = (s, ignore)
added_item s payload (some item) =
    if is_function_call item
    then add_call payload item (given_or_fallback s (text_at (codes "call_id") item))
    else (s, ignore)

-- "response.output_item.added".
unfoldable pub output_item_added : ResponsesState → Value → ResponsesState × Converted
output_item_added s payload = added_item s payload (get (codes "item") payload)

-- The only open call, or the most recent one.
abbrev pub only_or_current : List (Text × ToolCallEntry) → Option Text → Option Text
only_or_current [] current = current
only_or_current ((call_id, entry) ∷ []) current = some call_id
only_or_current (c ∷ d ∷ m) current = current

-- The call that a fragment is for: by its item, by its output index, or else without either.
abbrev pub target : ResponsesState → Value → Option Text
target s payload =
    or_text
      (and_then (and_then (get (codes "item_id") payload) as_str) (λ id. lookup id s.item_to_call))
      (or_text
        (and_then (and_then (get (codes "output_index") payload) as_i64)
          (λ i. call_at i s.output_index_to_call))
        (only_or_current s.tool_calls s.current_tool_call))

abbrev pub push_args : ResponsesState → Text → Text → Option ToolCallEntry → ResponsesState
push_args s text call_id none = s
push_args s text call_id (some entry) =
    put_entry s call_id (record entry { args = entry.args ++ text })

abbrev pub push_to : ResponsesState → Text → Option Text → ResponsesState
push_to s text none = s
push_to s text (some call_id) = push_args s text call_id (lookup call_id s.tool_calls)

-- "response.function_call_arguments.delta".
unfoldable pub arguments_delta : ResponsesState → Value → ResponsesState × Converted
arguments_delta s payload =
    let text = text_at (codes "delta") payload in
    if is_empty text then (s, ignore) else (push_to s text (target s payload), ignore)

abbrev pub call_or_fallback : ResponsesState → Option Text → ResponsesState × Text
call_or_fallback s none = fallback_call_id s
call_or_fallback s (some call_id) = (s, call_id)

-- The call that has ended: by its own id, by its item, or else the most recent one.
abbrev pub done_id : ResponsesState → Value → Option Text
done_id s item = or_text (and_then (get (codes "call_id") item) as_str) (
    or_text (and_then (and_then (get (codes "id") item) as_str) (λ id. lookup id s.item_to_call))
      s.current_tool_call)

abbrev pub done_call : ResponsesState → Value → ResponsesState × Text
done_call s item = call_or_fallback s (done_id s item)

-- The index that the call has at its end, claimed now if it has none and has a name.
abbrev pub named : Text → ToolCallEntry → ToolCallEntry
named name entry = if is_empty name then entry else renamed name entry

abbrev pub claim_of :
    ResponsesState → Text → Text → ToolCallEntry → Option ℕ → ResponsesState × Option ℕ
claim_of s call_id name entry (some n) = (put_entry s call_id (named name entry), some n)
claim_of s call_id name entry none = if is_empty name then (s, none) else (
  record (put_entry s call_id (renamed name (record entry { index = some s.tool_call_index }))) {
    tool_call_index = wrap32 (s.tool_call_index + 1);
  },
  some s.tool_call_index,
)

abbrev pub cleared : Option Text → Text → Option Text
cleared none call_id = none
cleared (some current) call_id = if text_eq current call_id then none else some current

-- The call is forgotten.
abbrev pub dropped : ResponsesState → Text → ResponsesState
dropped s call_id = record s {
  tool_calls = remove_call call_id s.tool_calls;
  current_tool_call = cleared s.current_tool_call call_id;
}

abbrev pub closing : ℕ → Text → Value
closing n arguments = array (
    Items.cons
      (object (
        fields (
          (codes "index", json_nat n)
          ∷ (codes "function", object (fields ((codes "arguments", string arguments) ∷ [])))
          ∷ [])))
      Items.nil)

abbrev pub args_of : Option ToolCallEntry → Text
args_of none = []
args_of (some entry) = entry.args

abbrev pub final_args : Text → Text → Text
final_args item_args buffered = if is_empty item_args then buffered else item_args

abbrev pub close_call : Value → Text → ResponsesState × Option ℕ → ResponsesState × Converted
close_call item call_id (s, none) = (dropped s call_id, ignore)
close_call item call_id (s, some n) = tool_chunk (dropped s call_id) (
    closing n
      (final_args (text_at (codes "arguments") item) (args_of (lookup call_id s.tool_calls))))

-- A call that `.added` never announced starts and ends here, if it has a name.
abbrev pub finish_call :
    Value → Text → Text → ResponsesState → Option ToolCallEntry → ResponsesState × Converted
finish_call item call_id name s (some entry) =
    close_call item call_id (claim_of s call_id name entry entry.index)
finish_call item call_id name s none =
    if is_empty name
    then (s, ignore)
    else close_call item call_id (
      record (put_entry s call_id
          (record { index = some s.tool_call_index; name = name; args = [] })) {
            tool_call_index = wrap32 (s.tool_call_index + 1);
          },
      some s.tool_call_index,
    )

abbrev pub done_with : Value → ResponsesState × Text → ResponsesState × Converted
done_with item (s, call_id) =
    finish_call item call_id (name_of item) s (lookup call_id s.tool_calls)

abbrev pub done_item : ResponsesState → Option Value → ResponsesState × Converted
done_item s none = (s, ignore)
done_item s (some item) =
    if is_function_call item then done_with item (done_call s item) else (s, ignore)

-- "response.output_item.done".
unfoldable pub output_item_done : ResponsesState → Value → ResponsesState × Converted
output_item_done s payload = done_item s (get (codes "item") payload)
