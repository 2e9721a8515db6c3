-- ===== src/Canonicalize/Fold/Operations.antt =====
-- The parts of the rewrite: what the created operations compute, and what a match has found.
use json_schema_mlir.Prelude.{
  ℕ, ◌+◌, ◌&&◌, ==→eq, Option, none, some, List, [], ◌∷◌, All, ◌≡◌, refl, arith,
}
use mathlib.Core.Option.{some-injective}
use json_schema_mlir.Float.{Double}
use json_schema_mlir.Runtime.{Runtime}
use json_schema_mlir.Ops.{Value, ValidateNumberOp}
use json_schema_mlir.Ir.{
  Op, validate_string, validate_number, and_i, Ir, Env, Computes, all_bits, defining_op,
}
use json_schema_mlir.Canonicalize.NumberLattice.{from_number_op}
use json_schema_mlir.Canonicalize.NumberLattice.Meet.{HasBounds}
use json_schema_mlir.Canonicalize.Conjuncts.{Flavour, str, num, opaque, flavour_of}
use json_schema_mlir.Canonicalize.Conjuncts.Absorb.{IsTame, meaning}
use json_schema_mlir.Canonicalize.Fold.{
  Created, materialize, conjoin_all, build_conjunction, leaves, rewrite_root, rewrite_op,
}

-- The number operations have numbers for bounds and divisors among `P`.
pub record AreTame {D : Type 0} ⦃d : Double D⦄ (ir : Ir D) (P : Option D → Type 0) : Type 0 where
  pub numbers :
      (v : Value) (op : ValidateNumberOp D)
      → defining_op ir v ≡ some (validate_number op)
      → HasBounds (from_number_op op) × P op.multiple_of

-- What a match has found.
pub rewrite_op-eq-some :
    {D : Type 0} ⦃d : Double D⦄ (fuel : ℕ) (ir : Ir D) (next root : Value) (op : Option (Op D))
    {result : Value} {ops : Created D}
    → rewrite_op fuel ir next root op ≡ some (result, ops)
    → (l : Value) × (r : Value) × (op ≡ some (and_i 1 l r))
      × (rewrite_root ir next (leaves fuel ir l r) ≡ some (result, ops))
rewrite_op-eq-some fuel ir next root none e = absurd (ground arith)
rewrite_op-eq-some fuel ir next root (some (and_i w l r)) e =
    (l, r, ground (arith, ==→eq w 1), ground arith)
rewrite_op-eq-some fuel ir next root (some _) e = absurd (ground arith)

module _ {H D : Type 0} ⦃d : Double D⦄ (rt : Runtime H D) (env : Env H) where
  -- Every created operation computes its value.
  abbrev pub AllCompute : Created D → Type 0
  AllCompute = All (λ p. Computes rt env p.0 p.1)

  pub bit-conjoin_all :
      (next acc : Value) (vs : List Value)
      → AllCompute (conjoin_all {D = D} next acc vs).1
      → env.bit (conjoin_all {D = D} next acc vs).0 ≡ (env.bit acc && all_bits env.bit vs)
  unfolding conjoin_all
  bit-conjoin_all next acc [] h = ground arith
  bit-conjoin_all next acc (v ∷ vs) (p, h) =
      let e : env.bit next ≡ (env.bit acc && env.bit v) = p refl in
      ground (arith, bit-conjoin_all (next + 1) next vs h)

  pub bit-build_conjunction :
      (next : Value) (vs : List Value) {result : Value} {ops : Created D}
      → build_conjunction next vs ≡ some (result, ops)
      → AllCompute ops
      → env.bit result ≡ all_bits env.bit vs
  unfolding build_conjunction
  bit-build_conjunction next [] e h = absurd (ground arith)
  bit-build_conjunction next (v ∷ vs) {result} {ops} e h =
      let r : (conjoin_all {D = D} next v vs).0 ≡ result = ground arith in
      let o : (conjoin_all {D = D} next v vs).1 ≡ ops = ground arith in
      rw (← r) (bit-conjoin_all next v vs (rw o h))

  pub bit-flavour_of :
      (v : Value) (op : Option (Op D))
      → ((o : Op D) → op ≡ some o → Computes rt env v o)
      → env.bit v ≡ meaning rt env (flavour_of op) v
  bit-flavour_of v none h = refl
  bit-flavour_of v (some (validate_string op)) h = h (validate_string op) refl
  bit-flavour_of v (some (validate_number op)) h = h (validate_number op) refl
  bit-flavour_of v (some _) h = refl

  pub materialize-none :
      (f : Flavour D) (v : Value) → materialize f ≡ none → env.bit v ≡ meaning rt env f v
  materialize-none (str i l) v e = absurd (ground arith)
  materialize-none (num i l) v e = absurd (ground arith)
  materialize-none opaque v e = refl

  pub materialize-some :
      (f : Flavour D) (v next : Value) {op : Op D}
      → materialize f ≡ some op
      → Computes rt env next op
      → env.bit next ≡ meaning rt env f v
  materialize-some (str i l) v next e h = rw (← some-injective _ _ e) at h
  materialize-some (num i l) v next e h = rw (← some-injective _ _ e) at h
  materialize-some opaque v next e h = absurd (ground arith)

  pub flavour_of-IsTame :
      (P : Option D → Type 0) (op : Option (Op D))
      → ((o : ValidateNumberOp D)
          → op ≡ some (validate_number o)
          → HasBounds (from_number_op o) × P o.multiple_of)
      → IsTame P (flavour_of op)
  flavour_of-IsTame P none h = tt
  flavour_of-IsTame P (some (validate_number op)) h = h op refl
  flavour_of-IsTame P (some _) h = tt
