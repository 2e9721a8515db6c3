-- ===== src/Lower/Struct/Documented.antt =====
-- `StructLowering` against the description of `schema.struct` in include/Schema/SchemaOps.td.
use json_schema_mlir.Prelude.{
  Bool, true, false, not, ◌&&◌, ◌||◌, ◌==◌, some, List, [], ◌∷◌, length, Bytes, bytes_eq, ◌≡◌, refl,
  ◌∙◌, ap, arith, Option,
}
use json_schema_mlir.Float.{Double}
use json_schema_mlir.Runtime.{Runtime, IsRuntime, object, tag}
use json_schema_mlir.Ops.{Value, StructOp}
use json_schema_mlir.Semantics.{holds}
use json_schema_mlir.Ir.{Env, struct_verdict, all_present, all_bits, names_of}
use json_schema_mlir.Lower.Pool.{Pool, Extends}
use json_schema_mlir.Lower.Expr.{eval}
use json_schema_mlir.Lower.Struct.{lower_struct, eval-lower_struct_verdict}

-- One test for each field, of its name and its verdict.
unfoldable pub all_fields : (Bytes → Bool → Bool) → (Value → Bool) → List Bytes → List Value → Bool
all_fields test bit (name ∷ names) (v ∷ vs) = test name (bit v) && all_fields test bit names vs
all_fields test bit _ _ = true

abbrev pub is_listed : List Bytes → Bytes → Bool
is_listed [] name = false
is_listed (n ∷ names) name = bytes_eq n name || is_listed names name

module _ {H D : Type 0} (rt : Runtime H D) where
  -- A property that is in the document, or has to be.
  abbrev pub is_expected : StructOp → Env H → Bytes → Bool
  is_expected op env name =
      is_listed (names_of op.required_fields) name || holds (rt.has_field (env.doc op.input) name)

  -- What include/Schema/SchemaOps.td says of `schema.struct`: a document that is no object is
  -- rejected, required properties have to be there, and a missing property that is not required
  -- is vacuously valid. Of `additional_properties` nothing is said here.
  unfoldable pub accepts_struct : StructOp → Env H → Bool
  accepts_struct op env =
      let h = env.doc op.input in
      rt.kind h == tag object
      && all_present (rt.has_field h) (names_of op.required_fields)
      && all_fields (λ name b. b || not (is_expected op env name)) env.bit op.field_names
          op.field_results

  -- No missing property that is not required has a false verdict.
  unfoldable pub missing_hold : StructOp → Env H → Bool
  missing_hold op env =
      all_fields (λ name b. b || is_expected op env name) env.bit op.field_names op.field_results

-- Two tests that together are the verdict of each field are together the conjunction of all.
all_fields-both :
    (f g : Bytes → Bool → Bool) (bit : Value → Bool) (names : List Bytes) (vs : List Value)
    → ((name : Bytes) (b : Bool) → (f name b && g name b) ≡ b)
    → length names ≡ length vs
    → all_bits bit vs ≡ (all_fields f bit names vs && all_fields g bit names vs)
unfolding all_fields
all_fields-both f g bit [] [] both e = refl
all_fields-both f g bit [] (v ∷ vs) both e = absurd (ground arith)
all_fields-both f g bit (name ∷ names) [] both e = absurd (ground arith)
all_fields-both f g bit (name ∷ names) (v ∷ vs) both e =
    ground (arith, both name (bit v), all_fields-both f g bit names vs both (ground arith))

module _ {H D : Type 0} ⦃d : Double D⦄ (rt : Runtime H D) where
  struct_verdict-documented :
      (op : StructOp) (env : Env H)
      → length op.field_names ≡ length op.field_results
      → struct_verdict rt op env ≡ (accepts_struct rt op env && missing_hold rt op env)
  unfolding struct_verdict accepts_struct missing_hold
  struct_verdict-documented op env e =
      let bits =
        all_fields-both (λ name b. b || not (is_expected rt op env name))
          (λ name b. b || is_expected rt op env name) env.bit op.field_names op.field_results
          (λ name b. ground arith) e in
      ground (arith, bits)

  -- A lowered struct with as many names as fields always has a verdict, in every module whose
  -- string pool keeps the entries interned so far. It is the documented one, if no property that is
  -- missing and not required has a false verdict; otherwise it is false.
  pub eval-lower_struct :
      (laws : IsRuntime rt) (env : Env H) (table : List Bytes) (op : StructOp) (pool : Pool)
      → Extends (lower_struct {D = D} op pool).1 table
      → length op.field_names ≡ length op.field_results
      → eval rt env table (lower_struct op pool).0
        ≡ some (accepts_struct rt op env && missing_hold rt op env)
  eval-lower_struct laws env table op pool ext e =
      eval-lower_struct_verdict rt laws env table op pool ext
      ∙ ap {B = Option Bool} some (struct_verdict-documented op env e)
