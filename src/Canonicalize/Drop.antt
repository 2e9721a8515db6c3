-- ===== src/Canonicalize/Drop.antt =====
-- `DropSubsumedStructValidators`.
pub mod Correct
pub mod Lowered
use json_schema_mlir.Prelude.{
  ℕ, zero, suc, ◌+◌, Bool, true, false, not, ◌&&◌, ◌==◌, ltb, Option, none, some, is_some, List, [],
  ◌∷◌, length, get_elem?, set, if◌then◌else◌,
}
use json_schema_mlir.Float.{Double}
use json_schema_mlir.Ops.{Value, StructOp}
use json_schema_mlir.Ir.{Op, struct, Ir, defining_op, uses}
use json_schema_mlir.Canonicalize.StringLattice.{string_subsumes}
use json_schema_mlir.Canonicalize.NumberLattice.{number_subsumes}
use json_schema_mlir.Canonicalize.Conjuncts.{Flavour, str, num, flavour_of, unique_from}

abbrev with_weak : Value → Option Value → Option (Value × Value)
with_weak weak none = none
with_weak weak (some strong) = some (strong, weak)

module _ {D : Type 0} ⦃d : Double D⦄ where
  -- Two validators of one kind on one input, the first strictly stronger.
  abbrev pub stronger : Flavour D → Flavour D → Bool
  stronger (str i a) (str j b) = i == j && string_subsumes a b && not (string_subsumes b a)
  stronger (num i a) (num j b) = i == j && number_subsumes a b && not (number_subsumes b a)
  stronger _ _ = false

  unfoldable pub strictly_stronger : Ir D → Value → Value → Bool
  strictly_stronger ir strong weak =
      not (strong == weak)
      && stronger (flavour_of (defining_op ir strong)) (flavour_of (defining_op ir weak))

  -- The inner loop, at `j`: the first element, other than number `i`, that is strictly stronger.
  unfoldable pub find_stronger : Ir D → ℕ → Value → ℕ → List Value → Option Value
  find_stronger ir i weak j [] = none
  find_stronger ir i weak j (strong ∷ rest) =
      if not (i == j) && strictly_stronger ir strong weak
      then some strong
      else find_stronger ir i weak (j + 1) rest

  -- The element that replaces number `i`, with the one that it replaces.
  abbrev pub replacement : Ir D → ℕ → List Value → Option Value → Option (Value × Value)
  replacement ir i updated none = none
  replacement ir i updated (some weak) = with_weak weak (find_stronger ir i weak 0 updated)

  -- The outer loop, with `n` rounds left: the updated operands, and the replaced ones.
  unfoldable pub replace_all : Ir D → ℕ → ℕ → List Value → List Value × List Value
  replace_all ir zero i updated = (updated, [])
  replace_all ir (suc n) i updated = elim (replacement ir i updated (get_elem? updated i)) [
    | none ↦ replace_all ir n (i + 1) updated
    | some (strong, weak) ↦
        (let (result, replaced) = replace_all ir n (i + 1) (set updated i strong) in
          (result, weak ∷ replaced))
  ]

  -- `modifyOpInPlace` of the operation that defines `v`.
  abbrev pub update_op : Ir D → Value → Op D → Ir D
  update_op [] v op = []
  update_op ((w, old) ∷ ir) v op = (if w == v then (w, op) else (w, old)) ∷ update_op ir v op

  -- The replaced values whose definitions have no uses left.
  abbrev pub unused : Ir D → List Value → List Value
  unused ir [] = []
  unused ir (v ∷ vs) =
      let rest = unused ir vs in
      if is_some (defining_op ir v) && uses ir v == 0 then v ∷ rest else rest

  abbrev pub erase_op : Ir D → Value → Ir D
  erase_op [] v = []
  erase_op ((w, op) ∷ rest) v = if w == v then rest else (w, op) ∷ erase_op rest v

  abbrev pub erase_ops : Ir D → List Value → Ir D
  erase_ops ir [] = ir
  erase_ops ir (v ∷ vs) = erase_ops (erase_op ir v) vs

  -- `none` is a failed match; otherwise the function body with the operation at `v` updated, and
  -- the dead definitions erased.
  unfoldable pub drop_subsumed : Ir D → Value → StructOp → Option (Ir D)
  drop_subsumed ir v op =
      if ltb (length op.field_results) 2
      then none
      else (let (updated, replaced) = replace_all ir (length op.field_results) 0 op.field_results in
          let changed = not (length replaced == 0) in
          let ir' = update_op ir v (struct (record op { field_results = updated })) in
          if not changed then none else some (erase_ops ir' (unique_from [] (unused ir' replaced))))
