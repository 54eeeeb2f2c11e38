-- ===== src/Translate/Responses/Nameless.antt =====
-- A function call whose name comes with its last event only.
use heterion_router.Prelude.{
  ℕ, Bool, true, false, Option, none, some, [], Text, codes, text_eq, is_empty, lookup,
  if◌then◌else◌, ◌≡◌, refl, ◌∙◌, ap,
}
use mathlib.Core.Path.{subst}
use heterion_router.Json.{
  Value, Fields, object, fields, items, get_field, insert_field, get, unwrap_or,
}
use heterion_router.Translate.Int.{ℤ}
use heterion_router.Translate.Chunk.{announce_role, chunk, stream_chunk}
use heterion_router.Translate.Reader.{call_name}
use heterion_router.Translate.Responses.{
  ToolCallEntry, ResponsesState, Converted, emit, ignore, fail, tool_chunk,
}
use heterion_router.Translate.Responses.Calls.{
  text_at, is_function_call, linked, announce_call, renamed, new_entry, add_call, name_of,
  given_or_fallback, added_item, output_item_added, done_call, claim_of, close_call, finish_call,
  done_with, done_item, output_item_done, closing, final_args, args_of,
}

abbrev Nameless : Converted → Type 0
Nameless (emit v) = call_name v ≡ none
Nameless ignore = Unit {0}
Nameless (fail message) = Unit {0}

call_name-closing :
    (id : Text) (created : ℤ) (model : Text) (n : ℕ) (arguments : Text) (sent : Bool)
    → call_name (
        stream_chunk id created model (
          object (
            insert_field
              (codes "tool_calls")
              (closing n arguments)
              (announce_role Fields.end sent).0)))
      ≡ none
unfolding call_name stream_chunk chunk fields items get_field insert_field text_eq announce_role
call_name-closing id created model n arguments true = refl
call_name-closing id created model n arguments false = refl

if_Nameless :
    (b : Bool) (x y : ResponsesState × Converted)
    → Nameless x.1
    → Nameless y.1
    → Nameless (if b then x else y).1
if_Nameless true x y hx hy = hx
if_Nameless false x y hx hy = hy

close_Nameless :
    (item : Value) (call_id : Text) (s : ResponsesState) (o : Option ℕ)
    → Nameless (close_call item call_id (s, o)).1
unfolding tool_chunk
close_Nameless item call_id s none = tt
close_Nameless item call_id s (some n) =
    call_name-closing s.chat_id s.created s.model n
      (final_args (text_at (codes "arguments") item) (args_of (lookup call_id s.tool_calls)))
      s.role_sent

finish_Nameless :
    (item : Value) (call_id name : Text) (s : ResponsesState) (o : Option ToolCallEntry)
    → Nameless (finish_call item call_id name s o).1
finish_Nameless item call_id name s (some entry) =
    close_Nameless item call_id (claim_of s call_id name entry entry.index).0
      (claim_of s call_id name entry entry.index).1
finish_Nameless item call_id name s none =
    if_Nameless (is_empty name) (s, ignore) _ tt
      (close_Nameless item call_id _ (some s.tool_call_index))

item_Nameless : (s : ResponsesState) (o : Option Value) → Nameless (done_item s o).1
item_Nameless s none = tt
item_Nameless s (some item) =
    if_Nameless (is_function_call item) (done_with item (done_call s item)) (s, ignore)
      (finish_Nameless item (done_call s item).1 (name_of item) (done_call s item).0
        (lookup (done_call s item).1 (done_call s item).0.tool_calls))
      tt

waiting :
    (s : ResponsesState) (call_id name : Text) (entry : ToolCallEntry)
    → name ≡ []
    → (announce_call s call_id name entry).1 ≡ ignore
waiting s call_id name entry n = rw n refl

if_ignored :
    (b : Bool) (x y : ResponsesState × Converted)
    → x.1 ≡ ignore
    → y.1 ≡ ignore
    → (if b then x else y).1 ≡ ignore
if_ignored true x y hx hy = hx
if_ignored false x y hx hy = hy

unnamed :
    (s : ResponsesState) (payload item : Value) (o : Option Value)
    → o ≡ some item
    → name_of item ≡ []
    → (added_item s payload o).1 ≡ ignore
unnamed s payload item none i n = cc i
unnamed s payload item (some other) i n =
    let r = given_or_fallback s (text_at (codes "call_id") other) in
    let e : other ≡ item = cc i in
    if_ignored (is_function_call other) (add_call payload other r) (s, ignore)
      (waiting (linked r.0 payload other r.1) r.1 (name_of other)
        (renamed (name_of other)
          (unwrap_or (lookup r.1 r.0.tool_calls) (new_entry (name_of other))))
        (ap name_of e ∙ n))
      refl

-- The name of a call is sent by the event that adds it, or never: an event that adds it without a
-- name sends nothing, and whatever the event that ends a call sends carries no name.
pub output_item_done-nameless :
    (s later : ResponsesState) (payload item last v : Value)
    → get (codes "item") payload ≡ some item
    → name_of item ≡ []
    → (output_item_done later last).1 ≡ emit v
    → ((output_item_added s payload).1 ≡ ignore) × (call_name v ≡ none)
unfolding output_item_added output_item_done
output_item_done-nameless s later payload item last v i n e =
    let h : Nameless (output_item_done later last).1 =
      item_Nameless later (get (codes "item") last) in
    (unnamed s payload item (get (codes "item") payload) i n, subst Nameless e h)
