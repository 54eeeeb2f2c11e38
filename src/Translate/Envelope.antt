-- ===== src/Translate/Envelope.antt =====
-- What a client reads in the envelope that the adapters share.
use heterion_router.Prelude.{Option, none, some, Text, text_eq, ◌≡◌, refl}
use heterion_router.Json.{Value, Fields, object, fields, items, get_field, insert_field}
use heterion_router.Translate.Int.{ℤ}
use heterion_router.Translate.Chunk.{chunk, stream_chunk, attach_usage}
use heterion_router.Translate.Reader.{finish_reason_of, call_index, call_of_delta}

pub finish_reason_of-stream_chunk :
    (id : Text) (now : ℤ) (model : Text) (delta : Value)
    → finish_reason_of (stream_chunk id now model delta) ≡ none
unfolding finish_reason_of stream_chunk chunk fields items get_field text_eq
finish_reason_of-stream_chunk id now model delta = refl

pub call_index-stream_chunk :
    (id : Text) (now : ℤ) (model : Text) (delta : Value)
    → call_index (stream_chunk id now model delta) ≡ call_of_delta delta
unfolding call_index stream_chunk chunk fields items get_field text_eq
call_index-stream_chunk id now model delta = refl

pub finish_reason_of-attach :
    (id : Text) (now : ℤ) (model reason : Text) (usage : Option Value)
    → finish_reason_of
        (attach_usage (chunk id now model (object Fields.end) (Value.string reason)) usage)
      ≡ some reason
unfolding finish_reason_of attach_usage insert_field chunk fields items get_field text_eq
finish_reason_of-attach id now model reason none = refl
finish_reason_of-attach id now model reason (some usage) = refl

pub call_index-attach :
    (id : Text) (now : ℤ) (model reason : Text) (usage : Option Value)
    → call_index (attach_usage (chunk id now model (object Fields.end) (Value.string reason)) usage)
      ≡ none
unfolding call_index attach_usage insert_field chunk fields items get_field text_eq
call_index-attach id now model reason none = refl
call_index-attach id now model reason (some usage) = refl
