-- ===== src/Translate/Reader.antt =====
-- What a client of the stream reads in a chunk: the index of the tool call and the finish reason of
-- its only choice. The adapters do not use these functions; their properties do.
use heterion_router.Prelude.{ℕ, suc, ◌+◌, Option, none, some, List, [], ◌∷◌, Text, codes, ◌≡◌}
use heterion_router.Json.{Value, get, as_str, as_u64, as_array, and_then}

abbrev pub head : List Value → Option Value
head [] = none
head (v ∷ vs) = some v

abbrev pub first_of : Text → Value → Option Value
first_of key v = and_then (and_then (get key v) as_array) head

abbrev pub choice_field : Text → Value → Option Value
choice_field key chunk = and_then (first_of (codes "choices") chunk) (get key)

-- `choices[0].finish_reason`.
unfoldable pub finish_reason_of : Value → Option Text
finish_reason_of chunk = and_then (choice_field (codes "finish_reason") chunk) as_str

abbrev pub call_of_delta : Value → Option ℕ
call_of_delta delta =
    and_then (and_then (first_of (codes "tool_calls") delta) (get (codes "index"))) as_u64

-- `choices[0].delta.tool_calls[0].index`.
unfoldable pub call_index : Value → Option ℕ
call_index chunk = and_then (choice_field (codes "delta") chunk) call_of_delta

abbrev pub cons_some {ℓ} : {A : Type ℓ} → Option A → List A → List A
cons_some none xs = xs
cons_some (some x) xs = x ∷ xs

-- The finish reasons, and the tool calls' indexes, of a stream.
unfoldable pub reasons : List Value → List Text
reasons [] = []
reasons (v ∷ vs) = cons_some (finish_reason_of v) (reasons vs)

unfoldable pub indexes : List Value → List ℕ
indexes [] = []
indexes (v ∷ vs) = cons_some (call_index v) (indexes vs)

-- `n` numbers from `start` on.
unfoldable pub count_from : ℕ → ℕ → List ℕ
count_from start ℕ.zero = []
count_from start (suc n) = start ∷ count_from (start + 1) n

-- `choices[0].delta.tool_calls[0]`, and a text of its `function`.
abbrev pub call_of : Value → Option Value
call_of chunk = and_then (choice_field (codes "delta") chunk) (first_of (codes "tool_calls"))

abbrev pub function_text : Text → Value → Option Text
function_text key chunk =
    and_then (and_then (and_then (call_of chunk) (get (codes "function"))) (get key)) as_str

-- `choices[0].delta.tool_calls[0].function.name`.
unfoldable pub call_name : Value → Option Text
call_name chunk = function_text (codes "name") chunk

-- `choices[0].delta.tool_calls[0].function.arguments`.
unfoldable pub call_arguments : Value → Option Text
call_arguments chunk = function_text (codes "arguments") chunk

-- `choices[0].delta.tool_calls[0].id`.
unfoldable pub call_id : Value → Option Text
call_id chunk = and_then (and_then (call_of chunk) (get (codes "id"))) as_str

-- What a client reads of a call in its chunk.
pub record IsCall (chunk : Value) (index : ℕ) (id name arguments : Text) : Type 0 where
  pub read_index : call_index chunk ≡ some index
  pub read_id : call_id chunk ≡ some id
  pub read_name : call_name chunk ≡ some name
  pub read_arguments : call_arguments chunk ≡ some arguments
