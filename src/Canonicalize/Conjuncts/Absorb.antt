-- ===== src/Canonicalize/Conjuncts/Absorb.antt =====
-- `absorb`, in a run.
use json_schema_mlir.Prelude.{
  Bool, true, false, ◌&&◌, Option, none, some, Option-cases, inl, inr, ◌≡◌, refl, sym, ◌∙◌, arith,
  if◌then◌else◌,
}
use mathlib.Core.Option.{none-ne-some, some-injective}
use json_schema_mlir.Float.{Double, IsOrdered, RoundsWhole}
use json_schema_mlir.Runtime.{Runtime}
use json_schema_mlir.Ops.{Value}
use json_schema_mlir.Ir.{Env}
use json_schema_mlir.Canonicalize.StringLattice.{
  StringLattice, string_meet, string_eq, accepts_string,
}
use json_schema_mlir.Canonicalize.StringLattice.Meet.{accepts_string-meet}
use json_schema_mlir.Canonicalize.NumberLattice.{
  NumberLattice, number_meet, number_eq, accepts_number, merge_multiple, keep_lower, keep_upper,
}
use json_schema_mlir.Canonicalize.NumberLattice.Meet.{
  HasBounds, ExactAt, number_meet-eq-some, accepts_number-meet,
}
use json_schema_mlir.Canonicalize.NumberLattice.Bounds.{IsBound}
use json_schema_mlir.Canonicalize.Conjuncts.{
  Flavour, str, num, opaque, Conjunct, input_of, is_validator, merge, adopt, absorb,
}
use json_schema_mlir.Canonicalize.Conjuncts.Equal.{string_eq→eq, accepts_number-eq}

-- The divisors `P` are divided exactly at the numbers of the run.
pub record AreExact {H D : Type 0} ⦃d : Double D⦄ (rt : Runtime H D) (env : Env H)
    (P : Option D → Type 0) : Type 0 where
  pub exact : (m n : Option D) → P m → P n → (v : Value) → ExactAt m n (rt.as_f64 (env.doc v))

module _ {D : Type 0} ⦃d : Double D⦄ where
  -- A number constraint set whose bounds are numbers and whose divisor is one of `P`.
  abbrev pub IsTame : (Option D → Type 0) → Flavour D → Type 0
  IsTame P (num v l) = HasBounds l × P l.multiple_of
  IsTame P _ = Unit

  if-IsBound : (k : Bool) (a b : Option D) → IsBound a → IsBound b → IsBound (if k then a else b)
  if-IsBound true a b p q = p
  if-IsBound false a b p q = q

  merge_multiple-one_of :
      (P : Option D → Type 0) (a b : Option D) {m : Option D}
      → merge_multiple a b ≡ some m
      → P a
      → P b
      → P m
  unfolding merge_multiple
  merge_multiple-one_of P none b e p q = ground arith
  merge_multiple-one_of P (some a) none e p q = ground arith
  merge_multiple-one_of P (some a) (some b) e p q = ground arith

  number_meet-IsTame :
      (P : Option D → Type 0) (a b : NumberLattice D) {m : NumberLattice D}
      → number_meet a b ≡ some m
      → HasBounds a × P a.multiple_of
      → HasBounds b × P b.multiple_of
      → HasBounds m × P m.multiple_of
  number_meet-IsTame P a b e (ba, pa) (bb, pb) =
      let (m, merged, is) = number_meet-eq-some a b e in
      rw is (
        record {
          lower = if-IsBound (keep_lower a b) a.minimum b.minimum ba.lower bb.lower;
          upper = if-IsBound (keep_upper a b) a.maximum b.maximum ba.upper bb.upper;
        },
        merge_multiple-one_of P a.multiple_of b.multiple_of merged pa pb,
      )

  merge-is_validator :
      (f g : Flavour D) {r : Bool × Bool × Flavour D} → merge f g ≡ some r → is_validator r.2 ≡ true
  unfolding merge
  merge-is_validator (str i a) (str j b) e = ground arith
  merge-is_validator (num i a) (num j b) e = ground arith
  merge-is_validator _ _ e = absurd (ground arith)

  adopt_keeps :
      (dst src : Conjunct D) (r : Bool × Bool × Flavour D)
      → ((adopt dst src r).flavour ≡ r.2) × ((adopt dst src r).dead ≡ dst.dead)
  adopt_keeps dst src (true, s, m) = (refl, refl)
  adopt_keeps dst src (false, true, m) = (refl, refl)
  adopt_keeps dst src (false, false, m) = (refl, refl)

  absorb-eq-some :
      (dst src : Conjunct D) {dst' : Conjunct D}
      → absorb dst src ≡ some dst'
      → (r : Bool × Bool × Flavour D) × (merge dst.flavour src.flavour ≡ some r)
        × (dst' ≡ adopt dst src r)
  unfolding absorb
  absorb-eq-some dst src {dst'} e = elim (Option-cases (merge dst.flavour src.flavour)) [
    | inl n ↦ absurd (none-ne-some dst' (sym (rw (n, absorb)) ∙ e))
    | inr (r, is) ↦ (r, is, some-injective _ _ (sym e ∙ rw (is, absorb)))
  ]

  -- The absorbing conjunct is a validator still, and as live as before.
  pub absorb_keeps :
      (dst src : Conjunct D) {dst' : Conjunct D}
      → absorb dst src ≡ some dst'
      → (is_validator dst'.flavour ≡ true) × (dst'.dead ≡ dst.dead)
  absorb_keeps dst src e =
      let (r, is, eq) = absorb-eq-some dst src e in
      let (f, k) = adopt_keeps dst src r in
      rw eq (rw f (merge-is_validator dst.flavour src.flavour is), k)

module _ {H D : Type 0} ⦃d : Double D⦄ (rt : Runtime H D) (env : Env H) where
  -- What a conjunct stands for.
  abbrev pub meaning : Flavour D → Value → Bool
  meaning (str i l) v = accepts_string rt l (env.doc i)
  meaning (num i l) v = accepts_number rt l (env.doc i)
  meaning opaque v = env.bit v

  abbrev pub value_of : Conjunct D → Bool
  value_of c = meaning c.flavour c.value

module _ {H D : Type 0} ⦃d : Double D⦄ (order : IsOrdered D) (rounding : RoundsWhole D)
    (rt : Runtime H D) (env : Env H) {P : Option D → Type 0} (exact : AreExact rt env P) where
  -- The parts of a merge.
  record IsMerged (f g : Flavour D) (v w : Value) (r : Bool × Bool × Flavour D) : Type 0 where
    both : (u : Value) → meaning rt env r.2 u ≡ (meaning rt env f v && meaning rt env g w)
    like_dst : r.0 ≡ true → (u : Value) → meaning rt env r.2 u ≡ meaning rt env f v
    like_src : r.1 ≡ true → (u : Value) → meaning rt env r.2 u ≡ meaning rt env g w
    same_input : input_of r.2 ≡ input_of f
    tame : IsTame P r.2

  merge_string-IsMerged :
      (i j v w : Value) (a b m : StringLattice)
      → string_meet a b ≡ some m
      → j ≡ i
      → IsMerged (str i a) (str j b) v w (string_eq m a, string_eq m b, str i m)
  merge_string-IsMerged i j v w a b m is same = record {
    both = λ u. rw same (accepts_string-meet rt a b (env.doc i) is);
    like_dst = λ e u. rw (string_eq→eq m a e);
    like_src = λ e u. rw (string_eq→eq m b e, same);
    same_input = refl;
    tame = tt;
  }

  merge_number-IsMerged :
      (i j v w : Value) (a b m : NumberLattice D)
      → number_meet a b ≡ some m
      → j ≡ i
      → IsTame P (num i a)
      → IsTame P (num j b)
      → IsMerged (num i a) (num j b) v w (number_eq m a, number_eq m b, num i m)
  merge_number-IsMerged i j v w a b m is same ta tb = record {
    both = λ u. rw same (
        accepts_number-meet order rounding rt a b (env.doc i) ta.0 tb.0
          (exact.exact a.multiple_of b.multiple_of ta.1 tb.1 i) is);
    like_dst = λ e u. accepts_number-eq order rounding rt m a (env.doc i) e;
    like_src = λ e u. rw same (accepts_number-eq order rounding rt m b (env.doc i) e);
    same_input = refl;
    tame = number_meet-IsTame P a b is ta tb;
  }

  merge-IsMerged :
      (f g : Flavour D) (v w : Value) {r : Bool × Bool × Flavour D}
      → merge f g ≡ some r
      → input_of g ≡ input_of f
      → IsTame P f
      → IsTame P g
      → IsMerged f g v w r
  unfolding merge
  merge-IsMerged (str i a) (str j b) v w {r} e same tf tg = elim (Option-cases (string_meet a b)) [
    | inl n ↦ absurd (ground arith)
    | inr (m, is) ↦
        let eq : r ≡ (string_eq m a, string_eq m b, str i m) = ground arith in
        rw eq (merge_string-IsMerged i j v w a b m is (ground arith))
  ]
  merge-IsMerged (num i a) (num j b) v w {r} e same tf tg = elim (Option-cases (number_meet a b)) [
    | inl n ↦ absurd (ground arith)
    | inr (m, is) ↦
        let eq : r ≡ (number_eq m a, number_eq m b, num i m) = ground arith in
        rw eq (merge_number-IsMerged i j v w a b m is (ground arith) tf tg)
  ]
  merge-IsMerged _ _ v w e same tf tg = absurd (ground arith)

  -- The value of a conjunct is what it stands for.
  pub record IsReady (c : Conjunct D) : Type 0 where
    pub computed : env.bit c.value ≡ value_of rt env c
    pub ready_tame : IsTame P c.flavour

  -- The value of a conjunct is what it stands for, unless it waits for a new operation.
  pub record IsTracked (c : Conjunct D) : Type 0 where
    pub clean : c.dirty ≡ false → env.bit c.value ≡ value_of rt env c
    pub tracked_tame : IsTame P c.flavour

  adopt-IsTracked :
      (dst src : Conjunct D) (r : Bool × Bool × Flavour D)
      → IsMerged dst.flavour src.flavour dst.value src.value r
      → IsTracked dst
      → IsReady src
      → IsTracked (adopt dst src r)
  adopt-IsTracked dst src (true, same_src, m) is t s = record {
    clean = λ e. t.clean e ∙ sym (is.like_dst refl dst.value);
    tracked_tame = is.tame;
  }
  adopt-IsTracked dst src (false, true, m) is t s = record {
    clean = λ e. s.computed ∙ sym (is.like_src refl src.value);
    tracked_tame = is.tame;
  }
  adopt-IsTracked dst src (false, false, m) is t s = record {
    clean = λ e. absurd (cc);
    tracked_tame = is.tame;
  }

  adopt-value_of :
      (dst src : Conjunct D) (r : Bool × Bool × Flavour D)
      → IsMerged dst.flavour src.flavour dst.value src.value r
      → value_of rt env (adopt dst src r) ≡ (value_of rt env dst && value_of rt env src)
  adopt-value_of dst src (true, same_src, m) is = is.both dst.value
  adopt-value_of dst src (false, true, m) is = is.both src.value
  adopt-value_of dst src (false, false, m) is = is.both dst.value

  -- After a successful absorption of a conjunct on the same input, the absorbing conjunct means
  -- both, and its value still computes what it means unless it is marked for a new operation, if
  -- no bound of a number validator is NaN and the quotients by the divisors are not rounded.
  pub absorb_lem :
      (dst src : Conjunct D) {dst' : Conjunct D}
      → absorb dst src ≡ some dst'
      → input_of src.flavour ≡ input_of dst.flavour
      → IsTracked dst
      → IsReady src
      → (value_of rt env dst' ≡ (value_of rt env dst && value_of rt env src)) × IsTracked dst'
  absorb_lem dst src e same t s =
      let (r, is, eq) = absorb-eq-some dst src e in
      let m =
        merge-IsMerged dst.flavour src.flavour dst.value src.value is same t.tracked_tame
          s.ready_tame in
      rw eq (adopt-value_of dst src r m, adopt-IsTracked dst src r m t s)
