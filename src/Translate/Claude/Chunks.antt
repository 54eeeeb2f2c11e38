-- ===== src/Translate/Claude/Chunks.antt =====
-- What a client reads in the chunks of the Claude adapter.
use heterion_router.Prelude.{ℕ, Option, none, some, Text, codes, text_eq, ◌≡◌, refl}
use heterion_router.Json.{fields, items, get_field, insert_field, unwrap_or}
use heterion_router.Translate.Int.{ℤ}
use heterion_router.Translate.Chunk.{chunk, stream_chunk, insert_text}
use heterion_router.Translate.Envelope.{
  finish_reason_of-stream_chunk, finish_reason_of-attach, call_index-attach,
}
use heterion_router.Translate.Claude.{
  ToolCallAcc, ClaudeState, role_chunk, delta_chunk, tool_call_chunk, finish_chunk,
}
use heterion_router.Translate.Reader.{
  finish_reason_of, call_index, call_id, call_name, call_arguments, IsCall,
}

pub call_index-role : (s : ClaudeState) (now : ℤ) → call_index (role_chunk s now) ≡ none
unfolding call_index role_chunk stream_chunk chunk fields items get_field text_eq
call_index-role s now = refl

pub call_index-text :
    (s : ClaudeState) (now : ℤ) (text : Text)
    → call_index (delta_chunk s now (some text) none) ≡ none
unfolding call_index delta_chunk insert_text insert_field stream_chunk chunk fields items get_field
    text_eq
call_index-text s now text = refl

pub call_index-thinking :
    (s : ClaudeState) (now : ℤ) (text : Text)
    → call_index (delta_chunk s now none (some text)) ≡ none
unfolding call_index delta_chunk insert_text insert_field stream_chunk chunk fields items get_field
    text_eq
call_index-thinking s now text = refl

pub call_index-call :
    (s : ClaudeState) (now : ℤ) (n : ℕ) (acc : ToolCallAcc)
    → call_index (tool_call_chunk s now n acc) ≡ some n
unfolding call_index tool_call_chunk stream_chunk chunk fields items get_field text_eq
call_index-call s now n acc = refl

pub call-IsCall :
    (s : ClaudeState) (now : ℤ) (n : ℕ) (acc : ToolCallAcc)
    → IsCall (tool_call_chunk s now n acc) n acc.id acc.name acc.arguments
unfolding call_index call_id call_name call_arguments tool_call_chunk stream_chunk chunk fields
    items get_field text_eq
call-IsCall s now n acc = record {
  read_index = refl;
  read_id = refl;
  read_name = refl;
  read_arguments = refl;
}

pub call_index-finish : (s : ClaudeState) (now : ℤ) → call_index (finish_chunk s now) ≡ none
unfolding finish_chunk
call_index-finish s now = call_index-attach _ _ _ _ _

pub finish_reason_of-finish :
    (s : ClaudeState) (now : ℤ)
    → finish_reason_of (finish_chunk s now) ≡ some (unwrap_or s.finish_reason (codes "stop"))
unfolding finish_chunk
finish_reason_of-finish s now = finish_reason_of-attach _ _ _ _ _

pub finish_reason_of-role : (s : ClaudeState) (now : ℤ) → finish_reason_of (role_chunk s now) ≡ none
unfolding role_chunk
finish_reason_of-role s now = finish_reason_of-stream_chunk _ _ _ _

pub finish_reason_of-delta :
    (s : ClaudeState) (now : ℤ) (content reasoning : Option Text)
    → finish_reason_of (delta_chunk s now content reasoning) ≡ none
unfolding delta_chunk
finish_reason_of-delta s now content reasoning = finish_reason_of-stream_chunk _ _ _ _

pub finish_reason_of-call :
    (s : ClaudeState) (now : ℤ) (n : ℕ) (acc : ToolCallAcc)
    → finish_reason_of (tool_call_chunk s now n acc) ≡ none
unfolding tool_call_chunk
finish_reason_of-call s now n acc = finish_reason_of-stream_chunk _ _ _ _
