-- ===== src/Ir.antt =====
-- A function body of MLIR, as far as the schema passes look at it: its operations in program order,
-- each with the value that it defines, and what an environment must satisfy to be a run of it.
use json_schema_mlir.Prelude.{
  ℕ, ◌+◌, ◌≡◌, Bool, true, false, ◌&&◌, ◌||◌, ◌==◌, Option, none, some, List, [], ◌∷◌, Bytes,
  if◌then◌else◌,
}
use json_schema_mlir.Float.{Double}
use json_schema_mlir.Runtime.{Runtime, tag, object}
use json_schema_mlir.Ops.{Value, ValidateStringOp, ValidateNumberOp, StructOp}
use json_schema_mlir.Semantics.{holds}
use json_schema_mlir.Canonicalize.StringLattice.{from_string_op, accepts_string}
use json_schema_mlir.Canonicalize.NumberLattice.{from_number_op, accepts_number}

-- `and_i w l r` is `arith.andi` on integers of `w` bits. `other` is any other operation.
pub data Op (D : Type 0) : Type 0 where
  validate_string : ValidateStringOp → Op D
  validate_number : ValidateNumberOp D → Op D
  struct : StructOp → Op D
  and_i : ℕ → Value → Value → Op D
  other : List Value → Op D

abbrev pub Ir : Type 0 → Type 0
Ir D = List (Value × Op D)

abbrev pub count : Value → List Value → ℕ
count v [] = 0
count v (w ∷ ws) = (if w == v then 1 else 0) + count v ws

module _ {D : Type 0} where
  -- `Value::getDefiningOp`: `none` for a block argument.
  unfoldable pub defining_op : Ir D → Value → Option (Op D)
  defining_op [] v = none
  defining_op ((w, op) ∷ ir) v = if w == v then some op else defining_op ir v

  abbrev pub operands : Op D → List Value
  operands (validate_string op) = op.input ∷ []
  operands (validate_number op) = op.input ∷ []
  operands (struct op) = op.input ∷ op.field_results
  operands (and_i w l r) = l ∷ r ∷ []
  operands (other vs) = vs

  -- The number of uses of a value.
  unfoldable pub uses : Ir D → Value → ℕ
  uses [] v = 0
  uses ((w, op) ∷ ir) v = count v (operands op) + uses ir v

  abbrev is_and_i_of : Value → Op D → Bool
  is_and_i_of v (and_i w l r) = l == v || r == v
  is_and_i_of v op = false

  -- Some user of `v` is an `arith.andi`.
  unfoldable pub used_by_and_i : Ir D → Value → Bool
  used_by_and_i [] v = false
  used_by_and_i ((w, op) ∷ ir) v = is_and_i_of v op || used_by_and_i ir v

-- The values at run time: a document handle for a `!schema.value`, a truth value for an `i1`.
pub record Env (H : Type 0) : Type 0 where
  pub doc : Value → H
  pub bit : Value → Bool

abbrev pub all_bits : (Value → Bool) → List Value → Bool
all_bits bit [] = true
all_bits bit (v ∷ vs) = bit v && all_bits bit vs

abbrev pub names_of : Option (List Bytes) → List Bytes
names_of none = []
names_of (some names) = names

abbrev pub all_present : (Bytes → Option Bool) → List Bytes → Bool
all_present has [] = true
all_present has (name ∷ names) = holds (has name) && all_present has names

-- The verdict that the passes give a struct: the conjunction of the kind, the required fields and
-- the verdicts of all fields.
unfoldable pub struct_verdict : {H D : Type 0} → Runtime H D → StructOp → Env H → Bool
struct_verdict rt op env =
    let h = env.doc op.input in
    rt.kind h == tag object
    && all_present (rt.has_field h) (names_of op.required_fields)
    && all_bits env.bit op.field_results

module _ {H D : Type 0} ⦃d : Double D⦄ where
  -- The value `v` that `op` defines is what `op` computes. Nothing is known of other operations.
  abbrev pub Computes : Runtime H D → Env H → Value → Op D → Type 0
  Computes rt env v (validate_string op) =
      env.bit v ≡ accepts_string rt (from_string_op op) (env.doc op.input)
  Computes rt env v (validate_number op) =
      env.bit v ≡ accepts_number rt (from_number_op op) (env.doc op.input)
  Computes rt env v (struct op) = env.bit v ≡ struct_verdict rt op env
  Computes rt env v (and_i w l r) = w ≡ 1 → env.bit v ≡ (env.bit l && env.bit r)
  Computes rt env v (other vs) = Unit

  -- `env` is a run of `ir`.
  pub record IsRun (rt : Runtime H D) (ir : Ir D) (env : Env H) : Type 0 where
    pub computes : (v : Value) (op : Op D) → defining_op ir v ≡ some op → Computes rt env v op
