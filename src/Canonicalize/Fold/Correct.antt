-- ===== src/Canonicalize/Fold/Correct.antt =====
-- `FoldConjunctiveValidations::matchAndRewrite`, in a run.
use json_schema_mlir.Prelude.{
  ℕ, ◌+◌, true, false, not, ◌||◌, ◌==◌, Option, none, some, Option-cases, Bool-cases, inl, inr,
  List, [], ◌∷◌, ◌++◌, All, All-split, length, map, ◌≡◌, refl, sym, ◌∙◌, arith, if◌then◌else◌,
}
use mathlib.Core.Option.{none-ne-some}
use json_schema_mlir.Float.{Double, IsOrdered, RoundsWhole}
use json_schema_mlir.Runtime.{Runtime}
use json_schema_mlir.Ops.{Value}
use json_schema_mlir.Ir.{Op, and_i, Ir, Env, IsRun, Computes, all_bits, defining_op}
use json_schema_mlir.Canonicalize.Conjuncts.{
  Conjunct, classify, collect_conjuncts, unique_from, sweep,
}
use json_schema_mlir.Canonicalize.Conjuncts.Absorb.{AreExact, value_of, IsReady, IsTracked}
use json_schema_mlir.Canonicalize.Conjuncts.Collect.{
  all_bits-append, all_bits-collect_conjuncts, all_bits-unique_from,
}
use json_schema_mlir.Canonicalize.Conjuncts.Sweep.{all_true, sweep_lem}
use json_schema_mlir.Canonicalize.Fold.{
  Created, fresh_op, emit_operands, finish, conjuncts_of, emit_conjunction, rewrite_root,
  match_and_rewrite,
}
use json_schema_mlir.Canonicalize.Fold.Operations.{
  AreTame, rewrite_op-eq-some, AllCompute, bit-build_conjunction, bit-flavour_of, materialize-none,
  materialize-some, flavour_of-IsTame,
}

module _ {H D : Type 0} ⦃d : Double D⦄ (order : IsOrdered D) (rounding : RoundsWhole D)
    (rt : Runtime H D) (env : Env H) {P : Option D → Type 0} (exact : AreExact rt env P) where
  fresh_op-none :
      (c : Conjunct D)
      → IsTracked order rounding rt env exact c
      → fresh_op c ≡ none
      → env.bit c.value ≡ value_of rt env c
  fresh_op-none c t e = elim (Bool-cases c.dirty) [
    | inl dirty ↦ materialize-none rt env c.flavour c.value (sym (rw dirty) ∙ e)
    | inr clean ↦ t.clean clean
  ]

  fresh_op-some :
      (c : Conjunct D) (next : Value) {op : Op D}
      → fresh_op c ≡ some op
      → Computes rt env next op
      → env.bit next ≡ value_of rt env c
  fresh_op-some c next {op} e h = elim (Bool-cases c.dirty) [
    | inl dirty ↦ materialize-some rt env c.flavour c.value next (sym (rw dirty) ∙ e) h
    | inr clean ↦ absurd (none-ne-some op (sym (rw clean) ∙ e))
  ]

  emit_dead :
      (next : Value) (c : Conjunct D) (cs : List (Conjunct D))
      → c.dead ≡ true
      → emit_operands next (c ∷ cs) ≡ emit_operands next cs
  unfolding emit_operands
  emit_dead next c cs e = rw (e, emit_operands)

  emit_kept :
      (next : Value) (c : Conjunct D) (cs : List (Conjunct D))
      → c.dead ≡ false
      → fresh_op c ≡ none
      → emit_operands next (c ∷ cs)
        ≡ (c.value ∷ (emit_operands next cs).0, (emit_operands next cs).1)
  unfolding emit_operands
  emit_kept next c cs e f = rw (e, f, emit_operands)

  emit_fresh :
      (next : Value) (c : Conjunct D) (cs : List (Conjunct D)) {op : Op D}
      → c.dead ≡ false
      → fresh_op c ≡ some op
      → emit_operands next (c ∷ cs)
        ≡ (next ∷ (emit_operands (next + 1) cs).0, (next, op) ∷ (emit_operands (next + 1) cs).1)
  unfolding emit_operands
  emit_fresh next c cs e f = rw (e, f, emit_operands)

  -- The operands of the new conjunction hold together exactly when the conjuncts do.
  bit-emit_operands :
      (next : Value) (cs : List (Conjunct D))
      → All (IsTracked order rounding rt env exact) cs
      → AllCompute rt env (emit_operands next cs).1
      → all_bits env.bit (emit_operands next cs).0 ≡ all_true rt env cs
  bit-emit_operands next [] t h = unfold emit_operands in refl
  bit-emit_operands next (c ∷ cs) (t, ts) h = elim (Bool-cases c.dead) [
    | inl dead ↦
        let shape = emit_dead next c cs dead in
        rw shape (ground (arith, bit-emit_operands next cs ts (rw shape at h)))
    | inr live ↦ elim (Option-cases (fresh_op c)) [
      | inl n ↦
          let shape = emit_kept next c cs live n in
          rw shape
            (ground (arith, fresh_op-none c t n, bit-emit_operands next cs ts (rw shape at h)))
      | inr (op, f) ↦
          let shape = emit_fresh next c cs live f in
          let (p, ps) = rw shape at h in
          rw shape (ground (arith, fresh_op-some c next f p, bit-emit_operands (next + 1) cs ts ps))
    ]
  ]

  finish-eq-some :
      (ops : Created D) (b : Option (Value × Created D)) {result : Value} {all : Created D}
      → finish ops b ≡ some (result, all)
      → (more : Created D) × (b ≡ some (result, more)) × (all ≡ ops ++ more)
  finish-eq-some ops none e = absurd (ground arith)
  finish-eq-some ops (some (r, more)) e = (more, ground arith, ground arith)

  bit-emit_conjunction :
      (next : Value) (cs : List (Conjunct D)) {result : Value} {all : Created D}
      → emit_conjunction next cs ≡ some (result, all)
      → All (IsTracked order rounding rt env exact) cs
      → AllCompute rt env all
      → env.bit result ≡ all_true rt env cs
  bit-emit_conjunction next cs e t h =
      let (more, built, is) = finish-eq-some (emit_operands next cs).1 _ e in
      let (ours, theirs) = All-split _ (emit_operands next cs).1 more (rw is at h) in
      bit-build_conjunction rt env _ _ built theirs ∙ bit-emit_operands next cs t ours

  module _ (ir : Ir D) (run : IsRun rt ir env) (tame : AreTame ir P) where
    classify-IsReady : (v : Value) → IsReady order rounding rt env exact (classify ir v)
    unfolding classify
    classify-IsReady v = record {
      computed = bit-flavour_of rt env v (defining_op ir v) (run.computes v);
      ready_tame = flavour_of-IsTame rt env P (defining_op ir v) (tame.numbers v);
    }

    classify-truth :
        (v : Value)
        → (if (classify ir v).dead then true else value_of rt env (classify ir v)) ≡ env.bit v
    unfolding classify
    classify-truth v = sym (classify-IsReady v).computed

    map-classify-IsReady :
        (vs : List Value) → All (IsReady order rounding rt env exact) (map (classify ir) vs)
    map-classify-IsReady [] = tt
    map-classify-IsReady (v ∷ vs) = (classify-IsReady v, map-classify-IsReady vs)

    all_true-map-classify :
        (vs : List Value) → all_true rt env (map (classify ir) vs) ≡ all_bits env.bit vs
    all_true-map-classify [] = refl
    all_true-map-classify (v ∷ vs) = ground (arith, classify-truth v, all_true-map-classify vs)

    bit-rewrite_root :
        (next : Value) (vs : List Value) {result : Value} {ops : Created D}
        → rewrite_root ir next vs ≡ some (result, ops)
        → AllCompute rt env ops
        → env.bit result ≡ all_bits env.bit vs
    unfolding rewrite_root
    bit-rewrite_root next vs {result} {ops} e h =
        let cs = conjuncts_of ir vs in
        let (kept, tracked) =
          sweep_lem order rounding rt env exact (length cs) cs
            (map-classify-IsReady (unique_from [] vs)) in
        elim (Bool-cases
          (not (not (length (unique_from [] vs) == length vs) || (sweep (length cs) cs).1))) [
            | inl same ↦ absurd (none-ne-some (result, ops) (sym (rw same) ∙ e))
            | inr changed ↦
                bit-emit_conjunction next (sweep (length cs) cs).0 (sym (rw changed) ∙ e) tracked h
                ∙ kept
                ∙ all_true-map-classify (unique_from [] vs)
                ∙ all_bits-unique_from env.bit [] vs refl
          ]

    -- Whenever the conjunction pattern matches, the value that replaces the root equals the root
    -- in every run of the function body in which the new operations compute their values, if no
    -- bound of a number validator is NaN and the quotients by the divisors are not rounded.
    pub bit-match_and_rewrite :
        (fuel : ℕ) (next root : Value) {result : Value} {ops : Created D}
        → match_and_rewrite fuel ir next root ≡ some (result, ops)
        → AllCompute rt env ops
        → env.bit result ≡ env.bit root
    unfolding match_and_rewrite
    bit-match_and_rewrite fuel next root e h =
        let (l, r, is, rewritten) = rewrite_op-eq-some fuel ir next root (defining_op ir root) e in
        let ls = collect_conjuncts fuel ir l in
        let rs = collect_conjuncts fuel ir r in
        bit-rewrite_root next (ls ++ rs) rewritten h
        ∙ all_bits-append env.bit ls rs
        ∙ rw
            (
              all_bits-collect_conjuncts rt fuel ir env l run,
              all_bits-collect_conjuncts rt fuel ir env r run,
            )
            (sym (run.computes root (and_i 1 l r) is refl))
