-- ===== src/Canonicalize/Drop/Lowered.antt =====
-- `DropSubsumedStructValidators` and then `StructLowering`, in a run.
use json_schema_mlir.Prelude.{ℕ, Option, some, Bytes, List, ◌≡◌, sym, ◌∙◌, ap, Bool}
use json_schema_mlir.Float.{Double, IsOrdered, RoundsWhole}
use json_schema_mlir.Runtime.{Runtime, IsRuntime}
use json_schema_mlir.Ops.{StructOp}
use json_schema_mlir.Ir.{Ir, Env, IsRun}
use json_schema_mlir.Canonicalize.Conjuncts.Absorb.{AreExact}
use json_schema_mlir.Canonicalize.Fold.Operations.{AreTame}
use json_schema_mlir.Canonicalize.Drop.{replace_all}
use json_schema_mlir.Canonicalize.Drop.Correct.{struct_verdict-replace_all}
use json_schema_mlir.Lower.Pool.{Pool, Extends}
use json_schema_mlir.Lower.Expr.{eval}
use json_schema_mlir.Lower.Struct.{lower_struct, eval-lower_struct_verdict}

module _ {H D : Type 0} ⦃d : Double D⦄ (order : IsOrdered D) (rounding : RoundsWhole D)
    (rt : Runtime H D) (laws : IsRuntime rt) (env : Env H) {P : Option D → Type 0}
    (exact : AreExact rt env P) (ir : Ir D) (run : IsRun rt ir env) (tame : AreTame ir P) where
  -- In every run, the `schema.struct` with its operands replaced by `n` rounds of the pattern is
  -- lowered to code with the verdict of the code for the old one, if no bound of a number validator
  -- is NaN and the quotients by the divisors are not rounded.
  pub eval-lower_struct-replace_all :
      (op : StructOp) (n : ℕ) (pool : Pool) (table : List Bytes)
      → let dropped = record op { field_results = (replace_all ir n 0 op.field_results).0 } in
        Extends (lower_struct {D = D} op pool).1 table
        → eval rt env table (lower_struct dropped pool).0
          ≡ eval rt env table (lower_struct op pool).0
  unfolding lower_struct
  eval-lower_struct-replace_all op n pool table ext =
      let dropped = record op { field_results = (replace_all ir n 0 op.field_results).0 } in
      eval-lower_struct_verdict rt laws env table dropped pool ext
      ∙ ap {B = Option Bool} some
          (struct_verdict-replace_all order rounding rt env exact ir run tame op n)
      ∙ sym (eval-lower_struct_verdict rt laws env table op pool ext)
