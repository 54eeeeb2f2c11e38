-- ===== src/Translate/Claude/Blocks.antt =====
-- What the operations on accumulators do to those of one block.
use heterion_router.Prelude.{
  true, false, Option, none, some, List, [], ◌∷◌, ◌++◌, Text, if◌then◌else◌, ◌≡◌, refl, sym, ◌∙◌,
  ap, Bool-cases, inl, inr, arith,
}
use heterion_router.Json.{unwrap_or}
use heterion_router.Translate.Int.{ℤ, int_eq, int_eq_refl, eq_of_int_eq}
use heterion_router.Translate.Claude.{ToolCallAcc}
use heterion_router.Translate.Claude.Tools.{take_acc, extend, push_at}

-- The accumulators of a block.
unfoldable pub of_block : ℤ → List ToolCallAcc → List ToolCallAcc
of_block i [] = []
of_block i (acc ∷ tools) =
    let rest = of_block i tools in if int_eq acc.block_index i then acc ∷ rest else rest

pub of_block-append :
    (i : ℤ) (xs ys : List ToolCallAcc) → of_block i (xs ++ ys) ≡ of_block i xs ++ of_block i ys
unfolding of_block
of_block-append i [] ys = refl
of_block-append i (x ∷ xs) ys = ground (arith, of_block-append i xs ys)

-- What `take_acc` leaves.
abbrev pub left_over : List ToolCallAcc → Option (ToolCallAcc × List ToolCallAcc) → List ToolCallAcc
left_over tools none = tools
left_over tools (some (acc, rest)) = rest

module _ (i : ℤ) where
  pub take_acc-none : (tools : List ToolCallAcc) → of_block i tools ≡ [] → take_acc i tools ≡ none
  unfolding take_acc of_block
  take_acc-none [] h = refl
  take_acc-none (acc ∷ tools) h = ground (arith, take_acc-none tools)

  pub of_block-none : (tools : List ToolCallAcc) → take_acc i tools ≡ none → of_block i tools ≡ []
  unfolding take_acc of_block
  of_block-none [] h = refl
  of_block-none (acc ∷ tools) h = ground (arith, of_block-none tools)

  -- The only accumulator of the block is the one that is taken, and none is left.
  pub take_acc-only :
      (acc : ToolCallAcc) (tools : List ToolCallAcc)
      → of_block i tools ≡ acc ∷ []
      → (rest : List ToolCallAcc) × (take_acc i tools ≡ some (acc, rest)) × (of_block i rest ≡ [])
  unfolding take_acc of_block
  take_acc-only acc [] h = cc h
  take_acc-only acc (x ∷ tools) h = elim (Bool-cases (int_eq x.block_index i)) [
    | inl e ↦ (tools, ground (arith, h, e), ground (arith, h, e))
    | inr e ↦
        let (rest, p, q) = take_acc-only acc tools (ground (arith, h, e)) in
        (x ∷ rest, ground (arith, p, e), ground (arith, q, e))
  ]

  -- The accumulators of another block are untouched.
  apart : (x j : ℤ) → int_eq i j ≡ false → int_eq x j ≡ true → int_eq x i ≡ false
  apart x j n e = elim (Bool-cases (int_eq x i)) [
    | inl h ↦
        let p : x ≡ i = eq_of_int_eq x i h in
        let q : x ≡ j = eq_of_int_eq x j e in
        let r : int_eq i j ≡ true = ap (int_eq i) (sym (sym p ∙ q)) ∙ int_eq_refl i in cc (r, n)
    | inr h ↦ h
  ]

  pub take_acc-other :
      (j : ℤ) (tools : List ToolCallAcc)
      → int_eq i j ≡ false
      → of_block i (left_over tools (take_acc j tools)) ≡ of_block i tools
  unfolding take_acc of_block
  take_acc-other j [] n = refl
  take_acc-other j (x ∷ tools) n = ground (arith, take_acc-other j tools n, apart x.block_index j n)

  pub push_at-none :
      (fragment : Text) (tools : List ToolCallAcc)
      → of_block i tools ≡ []
      → push_at i fragment tools ≡ none
  unfolding push_at of_block
  push_at-none fragment [] h = refl
  push_at-none fragment (x ∷ tools) h = ground (arith, push_at-none fragment tools)

  -- A fragment for the block's only accumulator.
  pub push_at-only :
      (fragment : Text) (acc : ToolCallAcc) (tools : List ToolCallAcc)
      → of_block i tools ≡ acc ∷ []
      → (after : List ToolCallAcc) × (push_at i fragment tools ≡ some after)
        × (of_block i after ≡ extend fragment acc ∷ [])
  unfolding push_at of_block
  push_at-only fragment acc [] h = cc h
  push_at-only fragment acc (x ∷ tools) h = elim (Bool-cases (int_eq x.block_index i)) [
    | inl e ↦ (
      extend fragment x ∷ tools,
      ground (arith, push_at-none fragment tools, h, e),
      ground (arith, h, e),
    )
    | inr e ↦
        let (after, p, q) = push_at-only fragment acc tools (ground (arith, h, e)) in
        (x ∷ after, ground (arith, p), ground (arith, q, e))
  ]

  pub push_at-other :
      (j : ℤ) (fragment : Text) (tools : List ToolCallAcc)
      → int_eq i j ≡ false
      → of_block i (unwrap_or (push_at j fragment tools) tools) ≡ of_block i tools
  unfolding push_at of_block
  push_at-other j fragment [] n = refl
  push_at-other j fragment (x ∷ tools) n =
      ground (arith, push_at-other j fragment tools n, apart x.block_index j n)
