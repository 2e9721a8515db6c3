-- ===== src/Canonicalize/Conjuncts/Collect.antt =====
-- `collectConjuncts` and the set of the leaves, in a run.
use json_schema_mlir.Prelude.{
  ℕ, zero, suc, ◌<◌, ◌≡◌, refl, sym, ◌∙◌, arith, Bool, true, ◌&&◌, ◌==◌, ==→eq, Bool-cases,
  Option-cases, inl, inr, Option, none, some, List, [], ◌∷◌, ◌++◌, All, All-append,
}
use json_schema_mlir.Float.{Double}
use json_schema_mlir.Runtime.{Runtime}
use json_schema_mlir.Ops.{Value}
use json_schema_mlir.Ir.{Op, and_i, Ir, Env, IsRun, all_bits, defining_op, uses}
use json_schema_mlir.Canonicalize.Conjuncts.{collect_conjuncts, interior, unique_from, mem_value}

pub all_bits-append :
    (bit : Value → Bool) (xs ys : List Value)
    → all_bits bit (xs ++ ys) ≡ (all_bits bit xs && all_bits bit ys)
all_bits-append bit [] ys = refl
all_bits-append bit (x ∷ xs) ys = ground (arith, all_bits-append bit xs ys)

-- What `interior` finds is a one-bit `andi` with one use.
interior-eq-some :
    {D : Type 0} (n : ℕ) (op : Option (Op D)) {l r : Value}
    → interior n op ≡ some (l, r)
    → op ≡ some (and_i 1 l r)
interior-eq-some n none e = absurd (ground arith)
interior-eq-some n (some (and_i w l r)) e = ground (arith, ==→eq w 1)
interior-eq-some n (some _) e = absurd (ground arith)

collect_leaf :
    {D : Type 0} (fuel : ℕ) (ir : Ir D) (v : Value)
    → interior (uses ir v) (defining_op ir v) ≡ none
    → collect_conjuncts (suc fuel) ir v ≡ v ∷ []
unfolding collect_conjuncts
collect_leaf fuel ir v e = rw (e, collect_conjuncts)

collect_node :
    {D : Type 0} (fuel : ℕ) (ir : Ir D) (v : Value) {l r : Value}
    → interior (uses ir v) (defining_op ir v) ≡ some (l, r)
    → collect_conjuncts (suc fuel) ir v ≡ collect_conjuncts fuel ir l ++ collect_conjuncts fuel ir r
unfolding collect_conjuncts
collect_node fuel ir v e = rw (e, collect_conjuncts)

module _ {H D : Type 0} ⦃d : Double D⦄ (rt : Runtime H D) where
  -- In every run of a function body the leaves of a flattened conjunction hold together exactly
  -- when the flattened value holds, whatever the fuel.
  pub all_bits-collect_conjuncts :
      (fuel : ℕ) (ir : Ir D) (env : Env H) (v : Value)
      → IsRun rt ir env
      → all_bits env.bit (collect_conjuncts fuel ir v) ≡ env.bit v
  all_bits-collect_conjuncts zero ir env v run = unfold collect_conjuncts in ground arith
  all_bits-collect_conjuncts (suc fuel) ir env v run =
      elim (Option-cases (interior (uses ir v) (defining_op ir v))) [
        | inl e ↦ rw (collect_leaf fuel ir v e) (ground arith)
        | inr ((l, r), e) ↦ rw (collect_node fuel ir v e) (
            all_bits-append env.bit (collect_conjuncts fuel ir l) (collect_conjuncts fuel ir r)
            ∙ rw
                (
                  all_bits-collect_conjuncts fuel ir env l run,
                  all_bits-collect_conjuncts fuel ir env r run,
                )
                (sym (run.computes v (and_i 1 l r) (interior-eq-some _ _ e) refl)))
      ]

-- Along a chain of `andi`s the rank falls, as it does where operands are defined before their uses.
pub record IsRanked {D : Type 0} (ir : Ir D) (rank : Value → ℕ) : Type 0 where
  pub falls :
      (v w l r : Value)
      → defining_op ir v ≡ some (and_i w l r)
      → (rank l < rank v) × (rank r < rank v)

module _ {D : Type 0} (ir : Ir D) (rank : Value → ℕ) (ranked : IsRanked ir rank) where
  -- With more fuel than the rank of the flattened value, no leaf could be flattened further.
  pub collect_conjuncts-leaves :
      (fuel : ℕ) (v : Value)
      → rank v < fuel
      → All (λ u. interior (uses ir u) (defining_op ir u) ≡ none) (collect_conjuncts fuel ir v)
  collect_conjuncts-leaves zero v h = absurd (omega arith)
  collect_conjuncts-leaves (suc fuel) v h =
      elim (Option-cases (interior (uses ir v) (defining_op ir v))) [
        | inl e ↦ rw (collect_leaf fuel ir v e) (e, tt)
        | inr ((l, r), e) ↦
            let (down_l, down_r) = ranked.falls v 1 l r (interior-eq-some _ _ e) in
            rw (collect_node fuel ir v e) (
              All-append _ (collect_conjuncts fuel ir l) (collect_conjuncts fuel ir r)
                (collect_conjuncts-leaves fuel l (omega arith))
                (collect_conjuncts-leaves fuel r (omega arith)))
      ]

mem_value-bit :
    (bit : Value → Bool) (seen : List Value) (v : Value)
    → all_bits bit seen ≡ true
    → mem_value seen v ≡ true
    → bit v ≡ true
mem_value-bit bit [] v all m = absurd (ground arith)
mem_value-bit bit (w ∷ ws) v all m = elim (Bool-cases (w == v)) [
  | inl e ↦ rw (← ==→eq w v e) (ground arith)
  | inr e ↦ mem_value-bit bit ws v (ground arith) (ground arith)
]

-- Dropping what was seen before keeps the conjunction.
pub all_bits-unique_from :
    (bit : Value → Bool) (seen vs : List Value)
    → all_bits bit seen ≡ true
    → all_bits bit (unique_from seen vs) ≡ all_bits bit vs
unfolding unique_from
all_bits-unique_from bit seen [] h = refl
all_bits-unique_from bit seen (v ∷ vs) h = elim (Bool-cases (mem_value seen v)) [
  | inl m ↦
      rw (m, unique_from)
        (ground (arith, mem_value-bit bit seen v h m, all_bits-unique_from bit seen vs h))
  | inr m ↦ rw (m, unique_from) (ground (arith, all_bits-unique_from bit (v ∷ seen) vs))
]
