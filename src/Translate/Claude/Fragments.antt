-- ===== src/Translate/Claude/Fragments.antt =====
-- The fragments of one block in a stream of Claude events.
use heterion_router.Prelude.{
  Bool, true, false, not, ◌&&◌, Option, none, some, List, [], ◌∷◌, ◌++◌, Text, codes, if◌then◌else◌,
  ◌≡◌, refl,
}
use heterion_router.Json.{Value, get, and_then}
use heterion_router.Translate.Int.{ℤ, int_eq, as_i64}
use heterion_router.Translate.Claude.Events.{
  EventKind, DeltaKind, text_delta, thinking_delta, input_json_delta, other_delta, at_message_start,
  at_block_start, at_block_stop, at_block_delta, at_message_delta, at_message_stop, at_other,
  index_of, delta_kind, delta_text, event_kind,
}
use heterion_router.Translate.Claude.Stream.{Incoming, event_type}

abbrev pub is_index : ℤ → Option ℤ → Bool
is_index i none = false
is_index i (some j) = int_eq i j

abbrev pub is_some_index : Option ℤ → Bool
is_some_index none = false
is_some_index (some j) = true

-- The index that a fragment names.
abbrev pub fragment_index : Value → Option ℤ
fragment_index payload = and_then (get (codes "index") payload) as_i64

abbrev pub delta_leaves : DeltaKind → Value → Bool
delta_leaves input_json_delta payload = is_some_index (fragment_index payload)
delta_leaves text_delta payload = true
delta_leaves thinking_delta payload = true
delta_leaves other_delta payload = true

abbrev pub kind_leaves : EventKind → ℤ → Value → Bool
kind_leaves at_block_start i payload = not (int_eq i (index_of payload))
kind_leaves at_block_stop i payload = not (int_eq i (index_of payload))
kind_leaves at_block_delta i payload =
    delta_leaves (delta_kind (delta_text (codes "type") payload)) payload
kind_leaves at_message_start i payload = true
kind_leaves at_message_delta i payload = true
kind_leaves at_message_stop i payload = true
kind_leaves at_other i payload = true

-- The event neither starts nor stops block `i`, and a fragment says which block it belongs to.
abbrev pub leaves_open : ℤ → Incoming → Bool
leaves_open i e = kind_leaves (event_kind (event_type e)) i e.payload

unfoldable pub all_leave_open : ℤ → List Incoming → Bool
all_leave_open i [] = true
all_leave_open i (e ∷ es) = leaves_open i e && all_leave_open i es

abbrev pub delta_fragment : DeltaKind → ℤ → Value → Text
delta_fragment input_json_delta i payload =
    if is_index i (fragment_index payload) then delta_text (codes "partial_json") payload else []
delta_fragment text_delta i payload = []
delta_fragment thinking_delta i payload = []
delta_fragment other_delta i payload = []

abbrev pub kind_fragment : EventKind → ℤ → Value → Text
kind_fragment at_block_delta i payload =
    delta_fragment (delta_kind (delta_text (codes "type") payload)) i payload
kind_fragment at_block_start i payload = []
kind_fragment at_block_stop i payload = []
kind_fragment at_message_start i payload = []
kind_fragment at_message_delta i payload = []
kind_fragment at_message_stop i payload = []
kind_fragment at_other i payload = []

-- The fragments of block `i`, one after the other.
unfoldable pub fragments : ℤ → List Incoming → Text
fragments i [] = []
fragments i (e ∷ es) = kind_fragment (event_kind (event_type e)) i e.payload ++ fragments i es

pub and_left : (a b : Bool) → a && b ≡ true → a ≡ true
and_left true b h = refl
and_left false b h = cc h

pub and_right : (a b : Bool) → a && b ≡ true → b ≡ true
and_right true b h = h
and_right false b h = cc h
