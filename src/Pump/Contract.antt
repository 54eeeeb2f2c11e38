-- ===== src/Pump/Contract.antt =====
-- What a strict client asks of a streamed tool call.
use heterion_router.Prelude.{
  ℕ, Bool, true, false, Option, none, some, [], Text, codes, text_eq, if◌then◌else◌, ◌≡◌, refl, ◌∙◌,
}
use heterion_router.Json.{
  Value, Fields, null, bool, number, string, array, object, get_field, insert_field,
  lookup-insert_field, unwrap_or,
}
use heterion_router.Pump.Normalize.{
  ToolCallIds, meta_at, known_or, is_string, with_arguments, with_name, stand_in, normalize_call,
}

-- The field is a string.
abbrev pub HasText : Text → Fields → Type 0
HasText key fs = (t : Text) × (get_field key fs ≡ some (string t))

-- The call has a string id, the type `function`, and a function with a name and arguments, both strings.
abbrev pub IsFull : Fields → Type 0
IsFull call =
    HasText (codes "id") call
    × (get_field (codes "type") call ≡ some (string (codes "function")))
    × ((function : Fields) × (get_field (codes "function") call ≡ some (object function))
        × HasText (codes "name") function
        × HasText (codes "arguments") function)

string_of : (o : Option Value) → is_string o ≡ true → (t : Text) × (o ≡ some (string t))
string_of none h = cc h
string_of (some (string t)) h = (t, refl)
string_of (some null) h = cc h
string_of (some (bool b)) h = cc h
string_of (some (number n)) h = cc h
string_of (some (array vs)) h = cc h
string_of (some (object fs)) h = cc h

with_arguments-HasText : (function : Fields) → HasText (codes "arguments") (with_arguments function)
unfolding text_eq
with_arguments-HasText function = branch (is_string (get_field (codes "arguments") function)) refl
  where
    branch :
        (b : Bool)
        → is_string (get_field (codes "arguments") function) ≡ b
        → HasText
            (codes "arguments")
            (if b then function else insert_field (codes "arguments") (string []) function)
    branch true e = string_of (get_field (codes "arguments") function) e
    branch false e =
        ([], lookup-insert_field (codes "arguments") (codes "arguments") (string []) function)

with_arguments-name :
    (function : Fields)
    → get_field (codes "name") (with_arguments function) ≡ get_field (codes "name") function
unfolding text_eq
with_arguments-name function = branch (is_string (get_field (codes "arguments") function))
  where
    branch :
        (b : Bool)
        → get_field
            (codes "name")
            (if b then function else insert_field (codes "arguments") (string []) function)
          ≡ get_field (codes "name") function
    branch true = refl
    branch false = lookup-insert_field (codes "arguments") (codes "name") (string []) function

-- What stands for the function of a call: an object, or nothing.
abbrev pub FunctionFits : Option Value → Type 0
FunctionFits o = (function : Fields) × (unwrap_or o (object Fields.end) ≡ object function)

full :
    (id name : Text) (call function : Fields)
    → IsFull (
        insert_field (codes "type") (string (codes "function")) (
          insert_field
            (codes "function")
            (object (with_name name function))
            (insert_field (codes "id") (string id) call)))
unfolding text_eq
full id name call function =
    let kind = string (codes "function") in
    let with_id = insert_field (codes "id") (string id) call in
    let named = insert_field (codes "name") (string name) function in
    let with_function =
      insert_field (codes "function") (object (with_name name function)) with_id in
    (
      (
        id,
        lookup-insert_field (codes "type") (codes "id") kind with_function
            ∙ lookup-insert_field (codes "function") (codes "id") (object (with_name name function))
                with_id
            ∙ lookup-insert_field (codes "id") (codes "id") (string id) call,
      ),
      lookup-insert_field (codes "type") (codes "type") kind with_function,
      (
        with_name name function,
        lookup-insert_field (codes "type") (codes "function") kind with_function
            ∙ lookup-insert_field (codes "function") (codes "function")
                (object (with_name name function)) with_id,
        (
          name,
          with_arguments-name named
              ∙ lookup-insert_field (codes "name") (codes "name") (string name) function,
        ),
        with_arguments-HasText named,
      ),
    )

-- Whatever the upstream left out, a call whose function is not something else than an object leaves
-- with the full contract.
pub normalize_call-IsFull :
    (seen : ToolCallIds) (index : ℕ) (call : Fields)
    → FunctionFits (get_field (codes "function") call)
    → IsFull (normalize_call seen index call).1
unfolding normalize_call
normalize_call-IsFull seen index call (function, e) =
    let meta = meta_at index seen in
    rw e (
      full (known_or (get_field (codes "id") call) meta.id (stand_in (codes "call_") index))
        (known_or (get_field (codes "name") function) meta.name (stand_in (codes "tool_") index))
        call function)
