-- ===== src/Canonicalize/Drop/Correct.antt =====
-- `DropSubsumedStructValidators`, in a run.
use json_schema_mlir.Prelude.{
  ℕ, zero, suc, ◌+◌, Bool, true, not, ◌&&◌, ◌==◌, ==→eq, Option, none, some, Option-cases,
  Bool-cases, inl, inr, List, [], ◌∷◌, get_elem?, set, ◌≡◌, ◌≢◌, refl, sym, ◌∙◌, ap, arith,
}
use json_schema_mlir.Float.{Double, IsOrdered, RoundsWhole}
use json_schema_mlir.Runtime.{Runtime}
use json_schema_mlir.Ops.{Value, StructOp}
use json_schema_mlir.Ir.{Ir, Env, IsRun, all_bits, defining_op, struct_verdict}
use json_schema_mlir.Canonicalize.StringLattice.Meet.{accepts_string-subsumes}
use json_schema_mlir.Canonicalize.NumberLattice.Meet.{accepts_number-subsumes}
use json_schema_mlir.Canonicalize.Conjuncts.{Flavour, str, num, flavour_of}
use json_schema_mlir.Canonicalize.Conjuncts.Absorb.{AreExact, IsTame, meaning}
use json_schema_mlir.Canonicalize.Fold.Operations.{AreTame, bit-flavour_of, flavour_of-IsTame}
use json_schema_mlir.Canonicalize.Drop.{
  stronger, strictly_stronger, find_stronger, replacement, replace_all,
}

all_bits-get :
    (bit : Value → Bool) (vs : List Value) (j : ℕ) (v : Value)
    → get_elem? vs j ≡ some v
    → all_bits bit vs ≡ true
    → bit v ≡ true
all_bits-get bit [] j v e h = absurd (ground arith)
all_bits-get bit (w ∷ ws) zero v e h = ground arith
all_bits-get bit (w ∷ ws) (suc j) v e h = all_bits-get bit ws j v e (ground arith)

all_bits-set-true :
    (bit : Value → Bool) (vs : List Value) (i : ℕ) (old new : Value)
    → get_elem? vs i ≡ some old
    → bit old ≡ true
    → bit new ≡ true
    → all_bits bit (set vs i new) ≡ all_bits bit vs
all_bits-set-true bit [] i old new e p q = refl
all_bits-set-true bit (v ∷ vs) zero old new e p q = ground arith
all_bits-set-true bit (v ∷ vs) (suc i) old new e p q =
    ap (◌&&◌ (bit v)) (all_bits-set-true bit vs i old new e p q)

-- Writing an element that another position holds keeps the conjunction, if it implies the one
-- overwritten.
all_bits-set :
    (bit : Value → Bool) (vs : List Value) (i j : ℕ) (weak strong : Value)
    → get_elem? vs i ≡ some weak
    → get_elem? vs j ≡ some strong
    → i ≢ j
    → (bit strong ≡ true → bit weak ≡ true)
    → all_bits bit (set vs i strong) ≡ all_bits bit vs
all_bits-set bit [] i j weak strong p q ne h = refl
all_bits-set bit (v ∷ vs) zero zero weak strong p q ne h = absurd (ne refl)
all_bits-set bit (v ∷ vs) zero (suc j) weak strong p q ne h =
    ground (arith, h, all_bits-get bit vs j strong q)
all_bits-set bit (v ∷ vs) (suc i) zero weak strong p q ne h =
    ground (arith, h, all_bits-set-true bit vs i weak strong p)
all_bits-set bit (v ∷ vs) (suc i) (suc j) weak strong p q ne h =
    ap (◌&&◌ (bit v)) (all_bits-set bit vs i j weak strong p q (λ e. ne (ap suc e)) h)

module _ {D : Type 0} ⦃d : Double D⦄ (ir : Ir D) where
  -- What the inner loop finds stands at another position of the operands, and is strictly stronger.
  find_stronger-found :
      (i : ℕ) (weak : Value) (vs : List Value) (start : ℕ) {strong : Value}
      → find_stronger ir i weak start vs ≡ some strong
      → (k : ℕ) × (get_elem? vs k ≡ some strong)
        × (i ≢ start + k)
        × (strictly_stronger ir strong weak ≡ true)
  unfolding find_stronger
  find_stronger-found i weak [] start e = absurd (ground arith)
  find_stronger-found i weak (v ∷ vs) start {strong} e =
      elim (Bool-cases (not (i == start) && strictly_stronger ir v weak)) [
        | inl hit ↦
            let is : v ≡ strong = ground arith in
            (0, ap {B = Option Value} some is, ground arith, rw (← is) (ground arith))
        | inr miss ↦
            let (k, at, ne, s) = find_stronger-found i weak vs (start + 1) (ground arith) in
            (suc k, at, (λ q. ne (omega arith)), s)
      ]

  replacement-eq-some :
      (i : ℕ) (vs : List Value) (o : Option Value) {strong weak : Value}
      → replacement ir i vs o ≡ some (strong, weak)
      → (o ≡ some weak) × (find_stronger ir i weak 0 vs ≡ some strong)
  replacement-eq-some i vs none e = absurd (ground arith)
  replacement-eq-some i vs (some w) {strong} {weak} e = (ground arith, ground arith)

  replace_none :
      (n i : ℕ) (vs : List Value)
      → replacement ir i vs (get_elem? vs i) ≡ none
      → replace_all ir (suc n) i vs ≡ replace_all ir n (i + 1) vs
  unfolding replace_all
  replace_none n i vs e = rw (e, replace_all)

  replace_some :
      (n i : ℕ) (vs : List Value) {strong weak : Value}
      → replacement ir i vs (get_elem? vs i) ≡ some (strong, weak)
      → replace_all ir (suc n) i vs ≡ (
        (replace_all ir n (i + 1) (set vs i strong)).0,
        weak ∷ (replace_all ir n (i + 1) (set vs i strong)).1,
      )
  unfolding replace_all
  replace_some n i vs e = rw (e, replace_all)

module _ {H D : Type 0} ⦃d : Double D⦄ (order : IsOrdered D) (rounding : RoundsWhole D)
    (rt : Runtime H D) (env : Env H) {P : Option D → Type 0} (exact : AreExact rt env P) (ir : Ir D)
    (run : IsRun rt ir env) (tame : AreTame ir P) where
  stronger-meaning :
      (f g : Flavour D) (v w : Value)
      → IsTame P f
      → IsTame P g
      → stronger f g ≡ true
      → meaning rt env f v ≡ true
      → meaning rt env g w ≡ true
  stronger-meaning (str i a) (str j b) v w tf tg e h =
      rw (← ==→eq i j (ground arith)) (accepts_string-subsumes rt a b (env.doc i) (ground arith) h)
  stronger-meaning (num i a) (num j b) v w tf tg e h = rw (← ==→eq i j (ground arith)) (
      accepts_number-subsumes order rounding rt a b (env.doc i) tf.0 tg.0
        (exact.exact a.multiple_of b.multiple_of tf.1 tg.1 i) (ground arith) h)
  stronger-meaning _ _ v w tf tg e h = absurd (ground arith)

  -- In every run, a validator that holds implies every validator that it is strictly stronger
  -- than, if no bound of a number validator is NaN and the quotients by the divisors are not
  -- rounded.
  pub strictly_stronger-bit :
      (strong weak : Value)
      → strictly_stronger ir strong weak ≡ true
      → env.bit strong ≡ true
      → env.bit weak ≡ true
  unfolding strictly_stronger
  strictly_stronger-bit strong weak e h =
      bit-flavour_of rt env weak (defining_op ir weak) (run.computes weak)
      ∙ stronger-meaning (flavour_of (defining_op ir strong)) (flavour_of (defining_op ir weak))
          strong weak (flavour_of-IsTame rt env P (defining_op ir strong) (tame.numbers strong))
          (flavour_of-IsTame rt env P (defining_op ir weak) (tame.numbers weak)) (ground arith)
          (sym (bit-flavour_of rt env strong (defining_op ir strong) (run.computes strong)) ∙ h)

  all_bits-replace_all :
      (n i : ℕ) (vs : List Value) → all_bits env.bit (replace_all ir n i vs).0 ≡ all_bits env.bit vs
  all_bits-replace_all zero i vs = unfold replace_all in refl
  all_bits-replace_all (suc n) i vs = elim (Option-cases (replacement ir i vs (get_elem? vs i))) [
    | inl e ↦ rw (replace_none ir n i vs e) (all_bits-replace_all n (i + 1) vs)
    | inr ((strong, weak), e) ↦
        let (at, found) = replacement-eq-some ir i vs (get_elem? vs i) e in
        let (j, there, ne, s) = find_stronger-found ir i weak vs 0 found in
        rw (replace_some ir n i vs e) (
          all_bits-replace_all n (i + 1) (set vs i strong)
          ∙ all_bits-set env.bit vs i j weak strong at there (λ q. ne (omega arith))
              (strictly_stronger-bit strong weak s))
  ]

  -- In every run, the `schema.struct` with its operands replaced has the verdict of the old one,
  -- if no bound of a number validator is NaN and the quotients by the divisors are not rounded.
  pub struct_verdict-replace_all :
      (op : StructOp) (n : ℕ)
      → struct_verdict rt
          (record op { field_results = (replace_all ir n 0 op.field_results).0 })
          env
        ≡ struct_verdict rt op env
  unfolding struct_verdict
  struct_verdict-replace_all op n = rw (all_bits-replace_all n 0 op.field_results)
