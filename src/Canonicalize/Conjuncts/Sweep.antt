-- ===== src/Canonicalize/Conjuncts/Sweep.antt =====
-- The pairwise sweep of `FoldConjunctiveValidations`, in a run.
use json_schema_mlir.Prelude.{
  ℕ, zero, suc, Bool, true, false, not, ◌&&◌, ◌||◌, ◌==◌, Option, none, some, Option-cases,
  Bool-cases, inl, inr, List, [], ◌∷◌, All, ◌≡◌, refl, ◌∙◌, arith, if◌then◌else◌,
}
use json_schema_mlir.Float.{Double, IsOrdered, RoundsWhole}
use json_schema_mlir.Runtime.{Runtime}
use json_schema_mlir.Ir.{Env}
use json_schema_mlir.Canonicalize.Bounds.{option_eq}
use json_schema_mlir.Canonicalize.Conjuncts.{
  Flavour, Conjunct, input_of, is_validator, absorb, absorb_into, absorb_all, sweep,
}
use json_schema_mlir.Canonicalize.Conjuncts.Absorb.{
  AreExact, value_of, IsReady, IsTracked, absorb_lem, absorb_keeps,
}

module _ {H D : Type 0} ⦃d : Double D⦄ (rt : Runtime H D) (env : Env H) where
  -- A dead conjunct says nothing.
  abbrev pub truth : Conjunct D → Bool
  truth c = if c.dead then true else value_of rt env c

  abbrev pub all_true : List (Conjunct D) → Bool
  all_true [] = true
  all_true (c ∷ cs) = truth c && all_true cs

  same_input :
      (f g : Flavour D)
      → is_validator g ≡ true
      → option_eq ◌==◌ (input_of f) (input_of g) ≡ true
      → input_of f ≡ input_of g
  same_input f g v e = ground arith

module _ {H D : Type 0} ⦃d : Double D⦄ (order : IsOrdered D) (rounding : RoundsWhole D)
    (rt : Runtime H D) (env : Env H) {P : Option D → Type 0} (exact : AreExact rt env P) where
  abbrev Tracked : Conjunct D → Type 0
  Tracked = IsTracked order rounding rt env exact

  abbrev Ready : Conjunct D → Type 0
  Ready = IsReady order rounding rt env exact

  absorb_into_skip :
      (dst src : Conjunct D)
      → (src.dead || not (option_eq ◌==◌ (input_of src.flavour) (input_of dst.flavour))) ≡ true
      → absorb_into dst src ≡ (dst, src, false)
  unfolding absorb_into
  absorb_into_skip dst src e = rw e

  absorb_into_refused :
      (dst src : Conjunct D) → absorb dst src ≡ none → absorb_into dst src ≡ (dst, src, false)
  unfolding absorb_into
  absorb_into_refused dst src e =
      elim (Bool-cases
        (src.dead || not (option_eq ◌==◌ (input_of src.flavour) (input_of dst.flavour)))) [
          | inl skip ↦ rw skip
          | inr go ↦ rw (go, e)
        ]

  absorb_into_absorbed :
      (dst src : Conjunct D) {dst' : Conjunct D}
      → (src.dead || not (option_eq ◌==◌ (input_of src.flavour) (input_of dst.flavour))) ≡ false
      → absorb dst src ≡ some dst'
      → absorb_into dst src ≡ (dst', record src { dead = true }, true)
  unfolding absorb_into
  absorb_into_absorbed dst src go e = rw (go, e)

  -- What a step leaves of the two conjuncts.
  record IsStep (dst src : Conjunct D) (r : Conjunct D × Conjunct D × Bool) : Type 0 where
    kept : (value_of rt env r.0 && truth rt env r.1) ≡ (value_of rt env dst && truth rt env src)
    tracked : Tracked r.0
    ready : Ready r.1
    validator : is_validator r.0.flavour ≡ true
    same_dead : r.0.dead ≡ dst.dead

  unchanged :
      (dst src : Conjunct D)
      → Tracked dst
      → Ready src
      → is_validator dst.flavour ≡ true
      → IsStep dst src (dst, src, false)
  unchanged dst src t s v = record {
    kept = refl;
    tracked = t;
    ready = s;
    validator = v;
    same_dead = refl;
  }

  absorb_into-IsStep :
      (dst src : Conjunct D)
      → Tracked dst
      → Ready src
      → is_validator dst.flavour ≡ true
      → IsStep dst src (absorb_into dst src)
  absorb_into-IsStep dst src t s v =
      elim (Bool-cases
        (src.dead || not (option_eq ◌==◌ (input_of src.flavour) (input_of dst.flavour)))) [
          | inl skip ↦ rw (absorb_into_skip dst src skip) (unchanged dst src t s v)
          | inr go ↦ elim (Option-cases (absorb dst src)) [
            | inl n ↦ rw (absorb_into_refused dst src n) (unchanged dst src t s v)
            | inr (dst', e) ↦
                let same = same_input rt env src.flavour dst.flavour v (ground arith) in
                let (both, t') = absorb_lem order rounding rt env exact dst src e same t s in
                let (v', k) = absorb_keeps dst src e in
                let live : src.dead ≡ false = ground arith in
                rw (absorb_into_absorbed dst src go e) (record {
                  kept = ground arith;
                  tracked = t';
                  ready = record { computed = s.computed; ready_tame = s.ready_tame };
                  validator = v';
                  same_dead = k;
                })
          ]
        ]

  record IsRound (dst : Conjunct D) (rest : List (Conjunct D))
      (r : Conjunct D × List (Conjunct D) × Bool) : Type 0 where
    kept :
        (value_of rt env r.0 && all_true rt env r.1) ≡ (value_of rt env dst && all_true rt env rest)
    tracked : Tracked r.0
    ready : All Ready r.1
    same_dead : r.0.dead ≡ dst.dead

  absorb_all-IsRound :
      (dst : Conjunct D) (rest : List (Conjunct D))
      → Tracked dst
      → All Ready rest
      → is_validator dst.flavour ≡ true
      → IsRound dst rest (absorb_all dst rest)
  unfolding absorb_all
  absorb_all-IsRound dst [] t s v = record {
    kept = refl;
    tracked = t;
    ready = tt;
    same_dead = refl;
  }
  absorb_all-IsRound dst (src ∷ rest) t (s, ss) v =
      let step = absorb_into-IsStep dst src t s v in
      let more = absorb_all-IsRound (absorb_into dst src).0 rest step.tracked ss step.validator in
      record {
        kept = ground (arith, step.kept, more.kept);
        tracked = more.tracked;
        ready = (step.ready, more.ready);
        same_dead = more.same_dead ∙ step.same_dead;
      }

  Ready→Tracked : (c : Conjunct D) → Ready c → Tracked c
  Ready→Tracked c s = record { clean = λ e. s.computed; tracked_tame = s.ready_tame }

  All-Tracked : (cs : List (Conjunct D)) → All Ready cs → All Tracked cs
  All-Tracked [] s = tt
  All-Tracked (c ∷ cs) (s, ss) = (Ready→Tracked c s, All-Tracked cs ss)

  -- The sweep over conjuncts that compute what they mean keeps their conjunction, and leaves
  -- conjuncts whose values compute what they mean unless they are marked for a new operation, if
  -- no bound of a number validator is NaN and the quotients by the divisors are not rounded.
  pub sweep_lem :
      (n : ℕ) (cs : List (Conjunct D))
      → All Ready cs
      → (all_true rt env (sweep n cs).0 ≡ all_true rt env cs) × All Tracked (sweep n cs).0
  unfolding sweep
  sweep_lem zero cs s = (refl, All-Tracked cs s)
  sweep_lem (suc n) [] s = (refl, tt)
  sweep_lem (suc n) (dst ∷ rest) (s, ss) =
      elim (Bool-cases (dst.dead || not (is_validator dst.flavour))) [
        | inl skip ↦
            let (kept, tracked) = sweep_lem n rest ss in
            rw skip (ground (arith, kept), (Ready→Tracked dst s, tracked))
        | inr go ↦
            let round = absorb_all-IsRound dst rest (Ready→Tracked dst s) ss (ground arith) in
            let (kept, tracked) = sweep_lem n (absorb_all dst rest).1 round.ready in
            rw go (ground (arith, kept, round.kept, round.same_dead), (round.tracked, tracked))
      ]
