-- ===== src/Sse/Tests.antt =====
-- Runs of the decoder on the inputs of its unit tests.
use heterion_router.Prelude.{
  ℕ, zero, suc, ◌≡◌, refl, true, false, some, List, [], ◌∷◌, ◌++◌, inl, Text, codes, arith,
  starts_with, strip_prefix,
}
use heterion_router.Prelude.Whitespace.{trim, lines, join, is_whitespace, utf8_len}
use heterion_router.Sse.{
  SseEvent, SseDecoder, new, push_bytes, finish, drain, next_line, take_line, parse_frame, buffered,
  max_sse_event_bytes,
}
use heterion_router.Sse.Chunks.{push_all, push_all-concat}
use heterion_router.Sse.Bounds.{IsBounded, push_all-IsBounded}
use heterion_router.Sse.Wire.{Message, IsMessage, encode_all, event_of}
use heterion_router.Sse.RoundTrip.{push-encode_all}

-- Over ASCII the decoding of bytes leaves them as they are.
abbrev same : List ℕ → Text
same s = s

abbrev ping : SseEvent
ping = record { event = some (codes "ping"); payload = codes "hi" }

abbrev crlf : List ℕ
crlf = 13 ∷ 10 ∷ []

-- `drops_comments_and_handles_crlf`.
test_crlf :
    (push_bytes same new (
      codes ": keepalive"
      ++ crlf
      ++ codes "event: ping"
      ++ crlf
      ++ codes "data: hi"
      ++ crlf
      ++ crlf)).1
    ≡ ping ∷ []
unfolding push_bytes finish drain next_line take_line parse_frame trim lines join is_whitespace
    utf8_len buffered max_sse_event_bytes starts_with strip_prefix
test_crlf = refl

-- `preserves_crlf_split_across_byte_chunks`, at one split.
test_split :
    (push_all same new (
      (codes "event: ping" ++ 13 ∷ [])
      ∷ (10 ∷ codes "data: hi" ++ crlf ++ 13 ∷ [])
      ∷ (10 ∷ [])
      ∷ [])).1
    ≡ ping ∷ []
unfolding push_all push_bytes finish drain next_line take_line parse_frame trim lines join
    is_whitespace utf8_len buffered max_sse_event_bytes starts_with strip_prefix
test_split = refl

push_all-concat_example :
    push_all same new ((codes "data: h" ∷ []) ++ (codes "i\n\n" ∷ []))
    ≡ push_bytes same new ((codes "data: h" ++ []) ++ codes "i\n\n")
unfolding push_bytes finish drain next_line utf8_len buffered max_sse_event_bytes
push_all-concat_example = push_all-concat same new (codes "data: h" ∷ []) (codes "i\n\n") (refl, tt)

push_all-IsBounded_example : IsBounded (push_all same new (codes "data: x" ∷ codes "y" ∷ [])).0
push_all-IsBounded_example = push_all-IsBounded same (codes "data: x" ∷ codes "y" ∷ [])

-- A frame of `n` letters, kept shut.
letters : ℕ → Text
letters zero = []
letters (suc n) = b'a' ∷ letters n

utf8_len-letters : (n : ℕ) → utf8_len (letters n) ≡ n
unfolding utf8_len letters
utf8_len-letters zero = refl
utf8_len-letters (suc n) = omega (arith, utf8_len-letters n)

-- A decoder with a frame of one byte more than the cap, and no line end in sight.
abbrev full : SseDecoder
full = record { buffer = []; frame = letters 1048577; overflowed = false }

full_overflows : (push_bytes same full (codes "x")).0.overflowed ≡ true
unfolding push_bytes finish drain next_line buffered max_sse_event_bytes
full_overflows = ground (arith, utf8_len-letters 1048577)

abbrev greeting : Message
greeting = record { name = some (codes "ping"); data_lines = codes "hi" ∷ codes "you" ∷ [] }

greeting_fits : IsMessage greeting
unfolding trim is_whitespace
greeting_fits = record {
  plain_name = (omega arith, refl);
  plain_data = omega arith;
  some_field = inl (λ e. cc);
}

push-encode_all_example :
    push_bytes same new (encode_all (greeting ∷ greeting ∷ []))
    ≡ (new, event_of greeting ∷ event_of greeting ∷ [])
push-encode_all_example =
    push-encode_all same (λ s h. refl) (greeting ∷ greeting ∷ [])
      (greeting_fits, (greeting_fits, tt))
