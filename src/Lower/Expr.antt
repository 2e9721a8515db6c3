-- ===== src/Lower/Expr.antt =====
-- The lowered code of one operation: pure SSA values of arith, math, scf and runtime calls, each
-- written as the expression that defines it. Evaluation is partial: a projection of a value of the
-- wrong kind has no result.
use json_schema_mlir.Prelude.{
  ℕ, ℤ, pos, leb_ℤ, eqb_ℤ, Bool, true, false, ◌&&◌, Option, none, some, List, Bytes,
}
use json_schema_mlir.Float.{Double, ogt, oge, olt, ole}
use json_schema_mlir.Runtime.{Runtime}
use json_schema_mlir.Ops.{Value}
use json_schema_mlir.Ir.{Env}

infixl 5 ◌>>=◌
abbrev pub ◌>>=◌ : {A B : Type 0} → Option A → (A → Option B) → Option B
none >>= f = none
some a >>= f = f a

-- `arith::CmpFPredicate`, the ordered ones that are used.
pub data CmpF : Type 0 where
  ogt_pred oge_pred olt_pred ole_pred oeq_pred : CmpF

pub data CmpI : Type 0 where
  eq_pred sge_pred sle_pred : CmpI

-- An `f64`.
pub data Float (D : Type 0) : Type 0 where
  call_as_f64 : Value → Float D
  const_f64 : D → Float D
  div_f : Float D → Float D → Float D
  round_even_op : Float D → Float D
  trunc_op : Float D → Float D

-- An `i32` or `i64`.
pub data Integer : Type 0 where
  call_kind : Value → Integer
  call_str_len : Value → Integer
  const_int : ℤ → Integer

-- An `i1`. `field` is an operand that was lowered before.
pub data Truth (D : Type 0) : Type 0 where
  const_bool : Bool → Truth D
  field : Value → Truth D
  cmp_f : CmpF → Float D → Float D → Truth D
  cmp_i : CmpI → Integer → Integer → Truth D
  and_i1 : Truth D → Truth D → Truth D
  call_str_matches : Value → ℕ → Truth D
  call_str_format : Value → ℕ → Truth D
  call_has_field : Value → ℕ → Truth D
  scf_if : Truth D → Truth D → Truth D → Truth D

module _ {D : Type 0} ⦃d : Double D⦄ where
  abbrev pub compare_f : CmpF → D → D → Bool
  compare_f ogt_pred x y = ogt x y
  compare_f oge_pred x y = oge x y
  compare_f olt_pred x y = olt x y
  compare_f ole_pred x y = ole x y
  compare_f oeq_pred x y = d.eq x y

abbrev pub compare_i : CmpI → ℤ → ℤ → Bool
compare_i eq_pred x y = eqb_ℤ x y
compare_i sge_pred x y = leb_ℤ y x
compare_i sle_pred x y = leb_ℤ x y

-- `table` is the module's `schema.string_pool`.
module _ {H D : Type 0} ⦃d : Double D⦄ (rt : Runtime H D) (env : Env H) (table : List Bytes) where
  abbrev pub eval_f : Float D → Option D
  eval_f (call_as_f64 v) = rt.as_f64 (env.doc v)
  eval_f (const_f64 x) = some x
  eval_f (div_f x y) = do a ← eval_f x; b ← eval_f y; some (d.div a b)
  eval_f (round_even_op x) = do a ← eval_f x; some (d.round_even a)
  eval_f (trunc_op x) = do a ← eval_f x; some (d.trunc a)

  abbrev pub eval_i : Integer → Option ℤ
  eval_i (call_kind v) = some (pos (rt.kind (env.doc v)))
  eval_i (call_str_len v) = rt.str_len (env.doc v)
  eval_i (const_int n) = some n

  -- `scf.if` runs the region of its condition alone; `arith.andi` computes both operands.
  abbrev pub eval : Truth D → Option Bool
  eval (const_bool b) = some b
  eval (field v) = some (env.bit v)
  eval (cmp_f p x y) = do a ← eval_f x; b ← eval_f y; some (compare_f p a b)
  eval (cmp_i p x y) = do a ← eval_i x; b ← eval_i y; some (compare_i p a b)
  eval (and_i1 x y) = do a ← eval x; b ← eval y; some (a && b)
  eval (call_str_matches v i) = rt.str_matches table (env.doc v) i
  eval (call_str_format v i) = rt.str_format table (env.doc v) i
  eval (call_has_field v i) = rt.has_field_at table (env.doc v) i
  eval (scf_if c x y) =
      let taken = eval x in
      let other = eval y in
      elim (eval c) [ none ↦ none | some b ↦ elim b [ true ↦ taken | false ↦ other ] ]
