-- ===== src/Lower/Emit.antt =====
-- `conjoin`, `emitKindCheck` and `emitGuardedVerdict`.
use json_schema_mlir.Prelude.{
  pos, Bool, true, false, ◌&&◌, ◌==◌, Option, none, some, List, Bytes, ◌≡◌, arith,
}
use json_schema_mlir.Float.{Double}
use json_schema_mlir.Runtime.{Runtime, JsonKind, tag}
use json_schema_mlir.Ops.{Value}
use json_schema_mlir.Ir.{Env}
use json_schema_mlir.Lower.Expr.{
  Truth, const_bool, cmp_i, and_i1, scf_if, eq_pred, call_kind, const_int, eval,
}

module _ {D : Type 0} where
  abbrev pub conjoin : Option (Truth D) → Truth D → Truth D
  conjoin none next = next
  conjoin (some acc) next = and_i1 acc next

  abbrev pub emit_kind_check : Value → JsonKind → Truth D
  emit_kind_check handle kind = cmp_i eq_pred (call_kind handle) (const_int (pos (tag kind)))

  abbrev pub emit_guarded_verdict : Truth D → Truth D → Truth D
  emit_guarded_verdict guard body = scf_if guard body (const_bool false)

  -- `accumulator ? accumulator : constBool(true)`.
  abbrev pub verdict_of : Option (Truth D) → Truth D
  verdict_of none = const_bool true
  verdict_of (some acc) = acc

module _ {H D : Type 0} ⦃d : Double D⦄ (rt : Runtime H D) (env : Env H) (table : List Bytes) where
  -- The accumulator evaluates to `b`, and holds nothing if it is empty.
  abbrev pub Means : Option (Truth D) → Bool → Type 0
  Means none b = b ≡ true
  Means (some acc) b = eval rt env table acc ≡ some b

  pub conjoin-Means :
      (acc : Option (Truth D)) (b : Bool) (next : Truth D) (c : Bool)
      → Means acc b
      → eval rt env table next ≡ some c
      → Means (some (conjoin acc next)) (b && c)
  conjoin-Means none b next c m e = rw m e
  conjoin-Means (some acc) b next c m e = rw (m, e)

  -- An absent constraint adds nothing.
  pub Means-and_true : (acc : Option (Truth D)) (b : Bool) → Means acc b → Means acc (b && true)
  Means-and_true acc true h = h
  Means-and_true acc false h = h

  pub eval-verdict_of :
      (acc : Option (Truth D)) (b : Bool)
      → Means acc b
      → eval rt env table (verdict_of acc) ≡ some b
  eval-verdict_of none b m = rw m
  eval-verdict_of (some acc) b m = m

  -- On a value of another kind the body is not evaluated.
  pub eval-emit_guarded_verdict :
      (handle : Value) (kind : JsonKind) (body : Truth D) (b : Bool)
      → (rt.kind (env.doc handle) ≡ tag kind → eval rt env table body ≡ some b)
      → eval rt env table (emit_guarded_verdict (emit_kind_check handle kind) body)
        ≡ some (rt.kind (env.doc handle) == tag kind && b)
  eval-emit_guarded_verdict handle kind body b h = ground (arith, h)
