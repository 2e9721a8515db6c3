-- ===== src/Lower/Struct.antt =====
-- `StructLowering`. The verdicts of the fields were lowered before, and are read outside the guard.
pub mod Documented
use json_schema_mlir.Prelude.{
  Bool, true, false, ◌&&◌, ◌==◌, Option, none, some, List, [], ◌∷◌, Bytes, ◌≡◌, refl, sym, ◌∙◌, ap,
}
use json_schema_mlir.Float.{Double}
use json_schema_mlir.Runtime.{Runtime, IsRuntime, object, tag}
use json_schema_mlir.Ops.{Value, StructOp}
use json_schema_mlir.Semantics.{holds}
use json_schema_mlir.Ir.{Env, struct_verdict, all_present, all_bits, names_of}
use json_schema_mlir.Lower.Pool.{Pool, intern, Extends, Extends-trans, intern_lem}
use json_schema_mlir.Lower.Expr.{Truth, field, call_has_field, eval}
use json_schema_mlir.Lower.Emit.{
  conjoin, emit_kind_check, emit_guarded_verdict, verdict_of, Means, conjoin-Means, Means-and_true,
  eval-verdict_of, eval-emit_guarded_verdict,
}

module _ {D : Type 0} where
  -- The loop over the required fields.
  unfoldable pub add_required :
      Value → List Bytes → Option (Truth D) → Pool → Option (Truth D) × Pool
  add_required h [] acc pool = (acc, pool)
  add_required h (name ∷ names) acc pool =
      let (id, pool') = intern pool name in
      add_required h names (some (conjoin acc (call_has_field h id))) pool'

  -- The loop over the verdicts of the fields.
  unfoldable pub add_fields : List Value → Option (Truth D) → Option (Truth D)
  add_fields [] acc = acc
  add_fields (v ∷ vs) acc = add_fields vs (some (conjoin acc (field v)))

  abbrev required_checks : StructOp → Pool → Option (Truth D) × Pool
  required_checks op pool = add_required op.input (names_of op.required_fields) none pool

  unfoldable pub lower_struct : StructOp → Pool → Truth D × Pool
  lower_struct op pool =
      let (acc, pool') = required_checks op pool in
      let accumulator = add_fields op.field_results acc in
      (emit_guarded_verdict (emit_kind_check op.input object) (verdict_of accumulator), pool')

  add_required-Extends :
      (h : Value) (names : List Bytes) (acc : Option (Truth D)) (pool : Pool)
      → Extends pool (add_required h names acc pool).1
  unfolding add_required
  add_required-Extends h [] acc pool = λ i s e. e
  add_required-Extends h (name ∷ names) acc pool =
      let (id, pool') = intern pool name in
      let acc' : Option (Truth D) = some (conjoin acc (call_has_field h id)) in
      Extends-trans pool pool' (add_required h names acc' pool').1 (intern_lem pool name).1
        (add_required-Extends h names acc' pool')

and_assoc : (a b c : Bool) → (a && b && c) ≡ (a && (b && c))
and_assoc true b c = refl
and_assoc false b c = refl

module _ {H D : Type 0} ⦃d : Double D⦄ (rt : Runtime H D) (env : Env H) (table : List Bytes) where
  add_fields-Means :
      (vs : List Value) (acc : Option (Truth D)) (b : Bool)
      → Means rt env table acc b
      → Means rt env table (add_fields vs acc) (b && all_bits env.bit vs)
  unfolding add_fields
  add_fields-Means [] acc b h = Means-and_true rt env table acc b h
  add_fields-Means (v ∷ vs) acc b h = rw (← and_assoc b (env.bit v) (all_bits env.bit vs)) (
      add_fields-Means vs (some (conjoin acc (field v))) (b && env.bit v)
        (conjoin-Means rt env table acc b (field v) (env.bit v) h refl))

  module _ (laws : IsRuntime rt) where
    add_required-Means :
        (h : Value) (names : List Bytes) (acc : Option (Truth D)) (pool : Pool) (b : Bool)
        → rt.kind (env.doc h) ≡ tag object
        → Extends (add_required h names acc pool).1 table
        → Means rt env table acc b
        → Means rt env table
            (add_required h names acc pool).0
            (b && all_present (rt.has_field (env.doc h)) names)
    unfolding add_required
    add_required-Means h [] acc pool b k ext m = Means-and_true rt env table acc b m
    add_required-Means h (name ∷ names) acc pool b k ext m =
        let (id, pool') = intern pool name in
        let acc' : Option (Truth D) = some (conjoin acc (call_has_field h id)) in
        let (c, is) = laws.has_field_defined (env.doc h) name k in
        let here =
          ext id name (add_required-Extends h names acc' pool' id name (intern_lem pool name).0) in
        let present = holds (rt.has_field (env.doc h) name) in
        let called : eval rt env table (call_has_field h id) ≡ some present =
          laws.has_field_pool table (env.doc h) id name here ∙ rw is refl in
        rw (← and_assoc b present (all_present (rt.has_field (env.doc h)) names)) (
          add_required-Means h names acc' pool' (b && present) k ext
            (conjoin-Means rt env table acc b (call_has_field h id) present m called))

module _ {H D : Type 0} ⦃d : Double D⦄ (rt : Runtime H D) (laws : IsRuntime rt) where
  -- The lowered struct has the verdict that the kind, the required fields and the verdicts of all
  -- fields give.
  pub eval-lower_struct_verdict :
      (env : Env H) (table : List Bytes) (op : StructOp) (pool : Pool)
      → Extends (lower_struct {D = D} op pool).1 table
      → eval rt env table (lower_struct op pool).0 ≡ some (struct_verdict rt op env)
  unfolding lower_struct struct_verdict
  eval-lower_struct_verdict env table op pool ext =
      let has = all_present (rt.has_field (env.doc op.input)) (names_of op.required_fields) in
      let bits = all_bits env.bit op.field_results in
      let acc = (required_checks {D = D} op pool).0 in
      eval-emit_guarded_verdict rt env table op.input object
        (verdict_of (add_fields op.field_results acc)) (has && bits)
        (λ is_object. eval-verdict_of rt env table (add_fields op.field_results acc) (has && bits) (
          add_fields-Means rt env table op.field_results acc has (
            add_required-Means rt env table laws op.input (names_of op.required_fields) none pool
              true is_object ext refl)))
      ∙ ap {B = Option Bool} some
          (sym (and_assoc (rt.kind (env.doc op.input) == tag object) has bits))
