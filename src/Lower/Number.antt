-- ===== src/Lower/Number.antt =====
-- `ValidateNumberLowering`.
use json_schema_mlir.Prelude.{
  Bool, true, false, ◌&&◌, Option, none, some, List, Bytes, ◌≡◌, refl, arith, if◌then◌else◌,
}
use json_schema_mlir.Float.{Double}
use json_schema_mlir.Runtime.{Runtime, IsRuntime, number}
use json_schema_mlir.Ops.{ValidateNumberOp}
use json_schema_mlir.Ir.{Env}
use json_schema_mlir.Semantics.{minimum_ok, maximum_ok, multiple_ok, integral_ok, on_number}
use json_schema_mlir.Canonicalize.NumberLattice.{from_number_op, in_lattice, accepts_number}
use json_schema_mlir.Lower.Expr.{
  call_as_f64, const_f64, div_f, round_even_op, trunc_op, Truth, cmp_f, ogt_pred, oge_pred,
  olt_pred, ole_pred, oeq_pred, eval,
}
use json_schema_mlir.Lower.Emit.{
  conjoin, emit_kind_check, emit_guarded_verdict, verdict_of, Means, conjoin-Means, Means-and_true,
  eval-verdict_of, eval-emit_guarded_verdict,
}

module _ {D : Type 0} where
  abbrev add_minimum : ValidateNumberOp D → Option D → Option (Truth D) → Option (Truth D)
  add_minimum op none acc = acc
  add_minimum op (some m) acc = some (
      conjoin acc (
        cmp_f (if op.exclusive_minimum then ogt_pred else oge_pred) (call_as_f64 op.input)
          (const_f64 m)))

  abbrev add_maximum : ValidateNumberOp D → Option D → Option (Truth D) → Option (Truth D)
  add_maximum op none acc = acc
  add_maximum op (some m) acc = some (
      conjoin acc (
        cmp_f (if op.exclusive_maximum then olt_pred else ole_pred) (call_as_f64 op.input)
          (const_f64 m)))

  abbrev add_multiple : ValidateNumberOp D → Option D → Option (Truth D) → Option (Truth D)
  add_multiple op none acc = acc
  add_multiple op (some m) acc =
      let quotient = div_f (call_as_f64 op.input) (const_f64 m) in
      some (conjoin acc (cmp_f oeq_pred quotient (round_even_op quotient)))

  abbrev add_integral : ValidateNumberOp D → Bool → Option (Truth D) → Option (Truth D)
  add_integral op false acc = acc
  add_integral op true acc =
      let x = call_as_f64 op.input in some (conjoin acc (cmp_f oeq_pred x (trunc_op x)))

  -- The accumulator after all four checks.
  abbrev number_checks : ValidateNumberOp D → Option (Truth D)
  number_checks op =
      let with_minimum = add_minimum op op.minimum none in
      let with_maximum = add_maximum op op.maximum with_minimum in
      let with_multiple = add_multiple op op.multiple_of with_maximum in
      add_integral op op.integral with_multiple

  unfoldable pub lower_number : ValidateNumberOp D → Truth D
  lower_number op =
      emit_guarded_verdict (emit_kind_check op.input number) (verdict_of (number_checks op))

module _ {H D : Type 0} ⦃d : Double D⦄ (rt : Runtime H D) (env : Env H) (table : List Bytes)
    (op : ValidateNumberOp D) (x : D) (projected : rt.as_f64 (env.doc op.input) ≡ some x) where
  add_minimum-Means :
      (m : Option D) (acc : Option (Truth D)) (b : Bool)
      → Means rt env table acc b
      → Means rt env table (add_minimum op m acc) (b && minimum_ok m op.exclusive_minimum x)
  add_minimum-Means none acc b h = Means-and_true rt env table acc b h
  add_minimum-Means (some m) acc b h =
      conjoin-Means rt env table acc b _ (minimum_ok (some m) op.exclusive_minimum x) h
        (rw projected (ground arith))

  add_maximum-Means :
      (m : Option D) (acc : Option (Truth D)) (b : Bool)
      → Means rt env table acc b
      → Means rt env table (add_maximum op m acc) (b && maximum_ok m op.exclusive_maximum x)
  add_maximum-Means none acc b h = Means-and_true rt env table acc b h
  add_maximum-Means (some m) acc b h =
      conjoin-Means rt env table acc b _ (maximum_ok (some m) op.exclusive_maximum x) h
        (rw projected (ground arith))

  add_multiple-Means :
      (m : Option D) (acc : Option (Truth D)) (b : Bool)
      → Means rt env table acc b
      → Means rt env table (add_multiple op m acc) (b && multiple_ok m x)
  add_multiple-Means none acc b h = Means-and_true rt env table acc b h
  add_multiple-Means (some m) acc b h =
      conjoin-Means rt env table acc b _ (multiple_ok (some m) x) h (rw projected refl)

  add_integral-Means :
      (i : Bool) (acc : Option (Truth D)) (b : Bool)
      → Means rt env table acc b
      → Means rt env table (add_integral op i acc) (b && integral_ok i x)
  add_integral-Means false acc b h = Means-and_true rt env table acc b h
  add_integral-Means true acc b h =
      conjoin-Means rt env table acc b _ (integral_ok true x) h (rw projected refl)

  number_checks-Means : Means rt env table (number_checks op) (in_lattice (from_number_op op) x)
  number_checks-Means =
      let lo = add_minimum-Means op.minimum none true refl in
      let hi = add_maximum-Means op.maximum _ _ lo in
      let mult = add_multiple-Means op.multiple_of _ _ hi in add_integral-Means op.integral _ _ mult

module _ {H D : Type 0} ⦃d : Double D⦄ (rt : Runtime H D) (laws : IsRuntime rt) where
  -- The lowered number validator always has a verdict, the one that the constraints give: on a
  -- value of another kind it is false, and no projection is run.
  pub eval-lower_number :
      (env : Env H) (table : List Bytes) (op : ValidateNumberOp D)
      → eval rt env table (lower_number op)
        ≡ some (accepts_number rt (from_number_op op) (env.doc op.input))
  unfolding lower_number accepts_number
  eval-lower_number env table op =
      let h = env.doc op.input in
      eval-emit_guarded_verdict rt env table op.input number (verdict_of (number_checks op))
        (on_number (in_lattice (from_number_op op)) (rt.as_f64 h))
        λ is_number.
          let (x, projected) = laws.as_f64_defined h is_number in
          rw projected (
            eval-verdict_of rt env table (number_checks op) (in_lattice (from_number_op op) x)
              (number_checks-Means rt env table op x projected))
