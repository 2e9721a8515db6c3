-- ===== src/Lower/String.antt =====
-- `ValidateStringLowering`. The pool is threaded through, as the pattern object keeps it.
use json_schema_mlir.Prelude.{
  ℕ, ℤ, Bool, true, false, ◌&&◌, ◌==◌, Option, none, some, List, Bytes, get_elem?, ◌≡◌, refl, ◌∙◌,
  ap,
}
use json_schema_mlir.Float.{Double}
use json_schema_mlir.Runtime.{Runtime, IsRuntime, string, tag}
use json_schema_mlir.Ops.{Value, ValidateStringOp}
use json_schema_mlir.Ir.{Env}
use json_schema_mlir.Semantics.{min_length_ok, max_length_ok, text_ok, holds}
use json_schema_mlir.Canonicalize.StringLattice.{from_string_op, accepts_string}
use json_schema_mlir.Lower.Pool.{Pool, intern, Extends, Extends-trans, intern_lem}
use json_schema_mlir.Lower.Expr.{
  Truth, cmp_i, sge_pred, sle_pred, call_str_len, const_int, call_str_matches, call_str_format,
  eval,
}
use json_schema_mlir.Lower.Emit.{
  conjoin, emit_kind_check, emit_guarded_verdict, verdict_of, Means, conjoin-Means, Means-and_true,
  eval-verdict_of, eval-emit_guarded_verdict,
}

and_assoc : (k a b c e : Bool) → (k && (a && b && c && e)) ≡ (k && a && b && c && e)
and_assoc true a b c e = refl
and_assoc false a b c e = refl

module _ {D : Type 0} where
  abbrev add_min_length : Value → Option ℤ → Option (Truth D) → Option (Truth D)
  add_min_length h none acc = acc
  add_min_length h (some n) acc = some (conjoin acc (cmp_i sge_pred (call_str_len h) (const_int n)))

  abbrev add_max_length : Value → Option ℤ → Option (Truth D) → Option (Truth D)
  add_max_length h none acc = acc
  add_max_length h (some n) acc = some (conjoin acc (cmp_i sle_pred (call_str_len h) (const_int n)))

  -- A text check interns its literal and calls the runtime with the index.
  abbrev add_text :
      (Value → ℕ → Truth D)
      → Value
      → Option Bytes
      → Option (Truth D)
      → Pool
      → Option (Truth D) × Pool
  add_text call h none acc pool = (acc, pool)
  add_text call h (some s) acc pool =
      let (id, pool') = intern pool s in (some (conjoin acc (call h id)), pool')

  abbrev length_checks : ValidateStringOp → Option (Truth D)
  length_checks op =
      add_max_length op.input op.max_length (add_min_length op.input op.min_length none)

  -- The accumulator after the checks of lengths and pattern, and the pool.
  abbrev pattern_checks : ValidateStringOp → Pool → Option (Truth D) × Pool
  pattern_checks op pool = add_text call_str_matches op.input op.regex (length_checks op) pool

  abbrev string_checks : ValidateStringOp → Pool → Option (Truth D) × Pool
  string_checks op pool =
      let (acc, pool') = pattern_checks op pool in
      add_text call_str_format op.input op.format acc pool'

  unfoldable pub lower_string : ValidateStringOp → Pool → Truth D × Pool
  lower_string op pool =
      let (acc, pool') = string_checks op pool in
      (emit_guarded_verdict (emit_kind_check op.input string) (verdict_of acc), pool')

  add_text-Extends :
      (call : Value → ℕ → Truth D) (h : Value) (s : Option Bytes) (acc : Option (Truth D))
      (pool : Pool)
      → Extends pool (add_text call h s acc pool).1
  add_text-Extends call h none acc pool = λ i s e. e
  add_text-Extends call h (some s) acc pool = (intern_lem pool s).1

module _ {H D : Type 0} ⦃d : Double D⦄ (rt : Runtime H D) (env : Env H) (table : List Bytes) where
  add_min_length-Means :
      (h : Value) {n : ℤ} (m : Option ℤ) (acc : Option (Truth D)) (b : Bool)
      → rt.str_len (env.doc h) ≡ some n
      → Means rt env table acc b
      → Means rt env table (add_min_length h m acc) (b && min_length_ok m (rt.str_len (env.doc h)))
  add_min_length-Means h none acc b e p = Means-and_true rt env table acc b p
  add_min_length-Means h {n} (some m) acc b e p =
      conjoin-Means rt env table acc b _ (min_length_ok (some m) (rt.str_len (env.doc h))) p
        (rw e refl)

  add_max_length-Means :
      (h : Value) {n : ℤ} (m : Option ℤ) (acc : Option (Truth D)) (b : Bool)
      → rt.str_len (env.doc h) ≡ some n
      → Means rt env table acc b
      → Means rt env table (add_max_length h m acc) (b && max_length_ok m (rt.str_len (env.doc h)))
  add_max_length-Means h none acc b e p = Means-and_true rt env table acc b p
  add_max_length-Means h {n} (some m) acc b e p =
      conjoin-Means rt env table acc b _ (max_length_ok (some m) (rt.str_len (env.doc h))) p
        (rw e refl)

  -- The call by index, in a table that keeps the pool's entries, is the test of the literal.
  add_text-Means :
      (call : Value → ℕ → Truth D) (test : Bytes → Option Bool) (h : Value) (s : Option Bytes)
      (acc : Option (Truth D)) (pool : Pool) (b : Bool)
      → ((i : ℕ) (t : Bytes) → get_elem? table i ≡ some t → eval rt env table (call h i) ≡ test t)
      → ((t : Bytes) → (c : Bool) × (test t ≡ some c))
      → Extends (add_text call h s acc pool).1 table
      → Means rt env table acc b
      → Means rt env table (add_text call h s acc pool).0 (b && text_ok test s)
  add_text-Means call test h none acc pool b by_index defined ext p =
      Means-and_true rt env table acc b p
  add_text-Means call test h (some s) acc pool b by_index defined ext p =
      let (c, is) = defined s in
      conjoin-Means rt env table acc b (call h (intern pool s).0) (holds (test s)) p
        (by_index (intern pool s).0 s (ext (intern pool s).0 s (intern_lem pool s).0) ∙ rw is refl)

module _ {H D : Type 0} ⦃d : Double D⦄ (rt : Runtime H D) (laws : IsRuntime rt) where
  string_checks-Means :
      (env : Env H) (table : List Bytes) (op : ValidateStringOp) (pool : Pool)
      → rt.kind (env.doc op.input) ≡ tag string
      → Extends (string_checks {D = D} op pool).1 table
      → Means rt env table (string_checks op pool).0 (
          min_length_ok op.min_length (rt.str_len (env.doc op.input))
          && max_length_ok op.max_length (rt.str_len (env.doc op.input))
          && text_ok (rt.matches (env.doc op.input)) op.regex
          && text_ok (rt.has_format (env.doc op.input)) op.format)
  string_checks-Means env table op pool is_string ext =
      let h = env.doc op.input in
      let (n, len) = laws.str_len_defined h is_string in
      let lo = add_min_length-Means rt env table op.input op.min_length none true len refl in
      let hi = add_max_length-Means rt env table op.input op.max_length _ _ len lo in
      let (acc, pool') = pattern_checks {D = D} op pool in
      let ext' =
        Extends-trans pool' (string_checks {D = D} op pool).1 table
          (add_text-Extends call_str_format op.input op.format acc pool') ext in
      let re =
        add_text-Means rt env table call_str_matches (rt.matches h) op.input op.regex
          (length_checks op) pool _ (λ i t e. laws.str_matches_pool table h i t e)
          (λ t. laws.matches_defined h t is_string) ext' hi in
      add_text-Means rt env table call_str_format (rt.has_format h) op.input op.format acc pool' _
        (λ i t e. laws.str_format_pool table h i t e) (λ t. laws.has_format_defined h t is_string)
        ext re

  -- The lowered string validator always has a verdict, the one that the constraints give, in every
  -- module whose string pool keeps the entries interned so far.
  pub eval-lower_string :
      (env : Env H) (table : List Bytes) (op : ValidateStringOp) (pool : Pool)
      → Extends (lower_string {D = D} op pool).1 table
      → eval rt env table (lower_string op pool).0
        ≡ some (accepts_string rt (from_string_op op) (env.doc op.input))
  unfolding lower_string accepts_string
  eval-lower_string env table op pool ext =
      eval-emit_guarded_verdict rt env table op.input string (verdict_of (string_checks op pool).0)
        (min_length_ok op.min_length (rt.str_len (env.doc op.input))
          && max_length_ok op.max_length (rt.str_len (env.doc op.input))
          && text_ok (rt.matches (env.doc op.input)) op.regex
          && text_ok (rt.has_format (env.doc op.input)) op.format)
        (λ is_string.
          eval-verdict_of rt env table (string_checks op pool).0
            (min_length_ok op.min_length (rt.str_len (env.doc op.input))
              && max_length_ok op.max_length (rt.str_len (env.doc op.input))
              && text_ok (rt.matches (env.doc op.input)) op.regex
              && text_ok (rt.has_format (env.doc op.input)) op.format)
            (string_checks-Means env table op pool is_string ext))
      ∙ ap {B = Option Bool} some (
          and_assoc (rt.kind (env.doc op.input) == tag string)
            (min_length_ok op.min_length (rt.str_len (env.doc op.input)))
            (max_length_ok op.max_length (rt.str_len (env.doc op.input)))
            (text_ok (rt.matches (env.doc op.input)) op.regex)
            (text_ok (rt.has_format (env.doc op.input)) op.format))
