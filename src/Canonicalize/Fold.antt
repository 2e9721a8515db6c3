-- ===== src/Canonicalize/Fold.antt =====
-- `materialize`, `buildConjunction` and `FoldConjunctiveValidations::matchAndRewrite`. The rewriter
-- numbers the operations that it creates from `next` on, and replaces the root by the result.
pub mod Operations
pub mod Correct
pub mod Combine
pub mod Total
use json_schema_mlir.Prelude.{
  ℕ, zero, suc, ◌+◌, Bool, true, false, not, ◌||◌, ◌==◌, Option, none, some, List, [], ◌∷◌, ◌++◌,
  length, map, if◌then◌else◌,
}
use json_schema_mlir.Float.{Double}
use json_schema_mlir.Ops.{Value}
use json_schema_mlir.Ir.{
  Op, validate_string, validate_number, and_i, Ir, defining_op, used_by_and_i,
}
use json_schema_mlir.Canonicalize.StringLattice.{to_string_op}
use json_schema_mlir.Canonicalize.NumberLattice.{to_number_op}
use json_schema_mlir.Canonicalize.Conjuncts.{
  Flavour, str, num, opaque, Conjunct, classify, collect_conjuncts, unique_from, sweep,
}

-- New operations, in the order of their creation.
abbrev pub Created : Type 0 → Type 0
Created D = List (Value × Op D)

module _ {D : Type 0} where
  -- The operation for a merged lattice; an opaque value has none.
  abbrev pub materialize : Flavour D → Option (Op D)
  materialize (str i l) = some (validate_string (to_string_op i l))
  materialize (num i l) = some (validate_number (to_number_op i l))
  materialize opaque = none

  -- The new operation of a conjunct, if it needs one.
  abbrev pub fresh_op : Conjunct D → Option (Op D)
  fresh_op c = if c.dirty then materialize c.flavour else none

  -- The loop that collects the operands of the new conjunction.
  unfoldable pub emit_operands : Value → List (Conjunct D) → List Value × Created D
  emit_operands next [] = ([], [])
  emit_operands next (c ∷ cs) = elim c.dead [
    | true ↦ emit_operands next cs
    | false ↦ elim (fresh_op c) [
      | none ↦ (let (vs, ops) = emit_operands next cs in (c.value ∷ vs, ops))
      | some op ↦ (let (vs, ops) = emit_operands (next + 1) cs in (next ∷ vs, (next, op) ∷ ops))
    ]
  ]

  unfoldable pub conjoin_all : Value → Value → List Value → Value × Created D
  conjoin_all next acc [] = (acc, [])
  conjoin_all next acc (v ∷ vs) =
      let (result, ops) = conjoin_all (next + 1) next vs in (result, (next, and_i 1 acc v) ∷ ops)

  -- The assertion that there is a value is the `none` case.
  unfoldable pub build_conjunction : Value → List Value → Option (Value × Created D)
  build_conjunction next [] = none
  build_conjunction next (v ∷ vs) = some (conjoin_all next v vs)

module _ {D : Type 0} ⦃d : Double D⦄ where
  abbrev pub finish : Created D → Option (Value × Created D) → Option (Value × Created D)
  finish ops none = none
  finish ops (some (result, more)) = some (result, ops ++ more)

  abbrev pub leaves : ℕ → Ir D → Value → Value → List Value
  leaves fuel ir l r = collect_conjuncts fuel ir l ++ collect_conjuncts fuel ir r

  abbrev pub conjuncts_of : Ir D → List Value → List (Conjunct D)
  conjuncts_of ir vs = map (classify ir) (unique_from [] vs)

  abbrev pub emit_conjunction : Value → List (Conjunct D) → Option (Value × Created D)
  emit_conjunction next swept =
      let (values, ops) = emit_operands next swept in
      finish ops (build_conjunction (next + length ops) values)

  -- The rewrite of `andi l r`, for the flattened leaves `vs`.
  unfoldable pub rewrite_root : Ir D → Value → List Value → Option (Value × Created D)
  rewrite_root ir next vs =
      let cs = conjuncts_of ir vs in
      let (swept, absorbed) = sweep (length cs) cs in
      let changed = not (length (unique_from [] vs) == length vs) || absorbed in
      if not changed then none else emit_conjunction next swept

  -- The match on the operation that defines the root.
  abbrev pub rewrite_op : ℕ → Ir D → Value → Value → Option (Op D) → Option (Value × Created D)
  rewrite_op fuel ir next root (some (and_i w l r)) =
      if not (w == 1)
      then none
      else if used_by_and_i ir root
      then none
      else rewrite_root ir next (leaves fuel ir l r)
  rewrite_op fuel ir next root _ = none

  -- `none` is a failed match. Otherwise: the value that replaces the root, and the new operations.
  unfoldable pub match_and_rewrite : ℕ → Ir D → Value → Value → Option (Value × Created D)
  match_and_rewrite fuel ir next root = rewrite_op fuel ir next root (defining_op ir root)
