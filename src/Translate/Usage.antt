-- ===== src/Translate/Usage.antt =====
-- Token accounting of the Claude adapter: `ClaudeUsage`, `first_number` and `merge_usage` in
-- crates/heterion-router-translate/src/claude.rs. A u32 is a natural, cut to 32 bits where the code
-- casts or adds.
use heterion_router.Prelude.{
  ℕ, ◌+◌, ◌||◌, Option, none, some, List, [], ◌∷◌, Text, codes, ltb, ◌==◌, if◌then◌else◌,
}
use heterion_router.Json.{Value, get, as_u64, and_then, unwrap_or}
use heterion_router.Translate.Int.{wrap32}

pub record ClaudeUsage : Type 0 where
  pub input : ℕ
  pub output : ℕ
  pub cache_read : ℕ
  pub cache_creation : ℕ
  pub reasoning : Option ℕ

-- `ClaudeUsage::default()`.
abbrev pub no_usage : ClaudeUsage
no_usage = record { input = 0; output = 0; cache_read = 0; cache_creation = 0; reasoning = none }

abbrev pub or_next : Option ℕ → ℕ → ℕ
or_next none next = next
or_next (some n) next = if n == 0 then next else n

-- The search of `first_number`: the first number of the keys that is not zero.
unfoldable pub first_nonzero : Value → List Text → ℕ
first_nonzero value [] = 0
first_nonzero value (key ∷ keys) =
    or_next (and_then (get key value) as_u64) (first_nonzero value keys)

unfoldable pub first_number : Value → List Text → ℕ
first_number value keys = wrap32 (first_nonzero value keys)

-- The usage block of a `message_start`: one that counts nothing is passed over.
abbrev pub counted : ClaudeUsage → Option ClaudeUsage → Option ClaudeUsage
counted u previous =
    if ltb 0 u.input || (ltb 0 u.output || (ltb 0 u.cache_read || ltb 0 u.cache_creation))
    then some u
    else previous

abbrev pub first_usage : Option ClaudeUsage → Value → Option ClaudeUsage
first_usage previous usage =
    counted
      (record {
        input = first_number usage (codes "input_tokens" ∷ codes "prompt_tokens" ∷ []);
        output = first_number usage (codes "output_tokens" ∷ codes "completion_tokens" ∷ []);
        cache_read = first_number usage (codes "cache_read_input_tokens" ∷ []);
        cache_creation = first_number usage (codes "cache_creation_input_tokens" ∷ []);
        reasoning = none;
      })
      previous

-- `usage.get(key).and_then(Value::as_u64).unwrap_or(0) as u32`.
abbrev pub number_at : Text → Value → ℕ
number_at key usage = wrap32 (unwrap_or (and_then (get key usage) as_u64) 0)

abbrev pub thinking_tokens : Value → Option ℕ
thinking_tokens usage =
    and_then
      (and_then
        (and_then (get (codes "output_tokens_details") usage) (get (codes "thinking_tokens")))
        as_u64)
      (λ n. some (wrap32 n))

abbrev pub or_else : Option ℕ → Option ℕ → Option ℕ
or_else none previous = previous
or_else (some n) previous = some n

abbrev pub billable : ℕ → ℕ → ℕ → ℕ → ℕ
billable input cache_read cache_creation previous =
    if ltb 0 input || (ltb 0 cache_read || ltb 0 cache_creation)
    then wrap32 (input + cache_read)
    else previous

-- The numbers of a `message_delta` over those before.
abbrev pub merged : ℕ → ℕ → ℕ → ℕ → Option ℕ → ClaudeUsage → ClaudeUsage
merged input output cache_read cache_creation reasoning previous = record {
  input = billable input cache_read cache_creation previous.input;
  output = output;
  cache_read = if ltb 0 cache_read then cache_read else previous.cache_read;
  cache_creation = if ltb 0 cache_creation then cache_creation else previous.cache_creation;
  reasoning = or_else reasoning previous.reasoning;
}

-- `merge_usage`, on the usage of the state.
unfoldable pub merge_usage : Option ClaudeUsage → Value → Option ClaudeUsage
merge_usage before usage = some (
    merged (number_at (codes "input_tokens") usage) (number_at (codes "output_tokens") usage)
      (number_at (codes "cache_read_input_tokens") usage)
      (number_at (codes "cache_creation_input_tokens") usage) (thinking_tokens usage)
      (unwrap_or before no_usage))
