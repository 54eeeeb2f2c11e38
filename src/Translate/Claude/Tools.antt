-- ===== src/Translate/Claude/Tools.antt =====
-- The accumulators of tool calls: what the block events of
-- crates/heterion-router-translate/src/claude.rs do to `tools`.
use heterion_router.Prelude.{
  Bool, true, Option, none, some, List, [], ◌∷◌, ◌++◌, Text, if◌then◌else◌,
}
use heterion_router.Json.{unwrap_or}
use heterion_router.Translate.Int.{ℤ, int_eq}
use heterion_router.Translate.Claude.{ToolCallAcc}

abbrev pub cons_rest :
    ToolCallAcc → Option (ToolCallAcc × List ToolCallAcc) → Option (ToolCallAcc × List ToolCallAcc)
cons_rest acc none = none
cons_rest acc (some (found, rest)) = some (found, acc ∷ rest)

-- `position` and `remove`: the first accumulator of a block, and the others.
unfoldable pub take_acc : ℤ → List ToolCallAcc → Option (ToolCallAcc × List ToolCallAcc)
take_acc index [] = none
take_acc index (acc ∷ tools) =
    let later = take_acc index tools in
    if int_eq acc.block_index index then some (acc, tools) else cons_rest acc later

abbrev pub extend : Text → ToolCallAcc → ToolCallAcc
extend fragment acc = record acc { arguments = acc.arguments ++ fragment }

abbrev pub hit_or :
    Bool
    → Text
    → ToolCallAcc
    → List ToolCallAcc
    → Option (List ToolCallAcc)
    → Option (List ToolCallAcc)
hit_or hit fragment acc tools (some rest) = some (acc ∷ rest)
hit_or hit fragment acc tools none = if hit then some (extend fragment acc ∷ tools) else none

-- `.iter_mut().rev().find(…)` and `push_str`: the last accumulator of the block is extended.
unfoldable pub push_at : ℤ → Text → List ToolCallAcc → Option (List ToolCallAcc)
push_at index fragment [] = none
push_at index fragment (acc ∷ tools) =
    hit_or (int_eq acc.block_index index) fragment acc tools (push_at index fragment tools)

-- `.last_mut()` and `push_str`.
unfoldable pub push_last : Text → List ToolCallAcc → Option (List ToolCallAcc)
push_last fragment [] = none
push_last fragment (acc ∷ tools) = hit_or true fragment acc tools (push_last fragment tools)

abbrev pub push_fragment : Option ℤ → Text → List ToolCallAcc → List ToolCallAcc
push_fragment none fragment tools = unwrap_or (push_last fragment tools) tools
push_fragment (some index) fragment tools = unwrap_or (push_at index fragment tools) tools
