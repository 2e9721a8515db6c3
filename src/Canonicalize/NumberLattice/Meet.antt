-- ===== src/Canonicalize/NumberLattice/Meet.antt =====
-- `NumberLattice::meet` and `subsumes`, and the numbers accepted.
use json_schema_mlir.Prelude.{
  Bool, true, false, ◌&&◌, ◌||◌, Option, none, some, ◌≡◌, ◌⊎◌, Bool-cases, refl, arith,
  Option-cases, inl, inr, if◌then◌else◌,
}
use json_schema_mlir.Float.{Double, IsOrdered, RoundsWhole, IsWhole}
use json_schema_mlir.Runtime.{Runtime}
use json_schema_mlir.Semantics.{minimum_ok, maximum_ok, multiple_ok, integral_ok}
use json_schema_mlir.Canonicalize.NumberLattice.{
  NumberLattice, is_integral_multiple_of, number_meet, number_subsumes, merge_multiple, keep_lower,
  keep_upper, in_lattice, accepts_number,
}
use json_schema_mlir.Canonicalize.NumberLattice.Bounds.{
  IsBound, strict-minimum_ok, strict-maximum_ok, minimum_ok-stricter, maximum_ok-stricter,
}
use json_schema_mlir.Canonicalize.NumberLattice.Divisors.{
  DividesExactly, strict-multiple_ok, merge_multiple-multiple_ok,
}

interleave :
    (a a' b b' c c' d d' : Bool)
    → ((a && a') && (b && b') && (c && c') && (d && d'))
      ≡ ((a && b && c && d) && (a' && b' && c' && d'))
interleave false _ _ _ _ _ _ _ = refl
interleave true a' b b' c c' d d' = ground arith

module _ {D : Type 0} ⦃d : Double D⦄ where
  -- Both bounds of a lattice are numbers where they are present.
  pub record HasBounds (l : NumberLattice D) : Type 0 where
    pub lower : IsBound l.minimum
    pub upper : IsBound l.maximum

  abbrev pub met : NumberLattice D → NumberLattice D → Option D → NumberLattice D
  met a b m = record {
    minimum = if keep_lower a b then a.minimum else b.minimum;
    maximum = if keep_upper a b then a.maximum else b.maximum;
    multiple_of = m;
    exclusive_min = if keep_lower a b then a.exclusive_min else b.exclusive_min;
    exclusive_max = if keep_upper a b then a.exclusive_max else b.exclusive_max;
    integral = a.integral || b.integral;
  }

  pub number_meet-eq-some :
      (a b : NumberLattice D) {c : NumberLattice D}
      → number_meet a b ≡ some c
      → (m : Option D) × (merge_multiple a.multiple_of b.multiple_of ≡ some m) × (c ≡ met a b m)
  unfolding number_meet
  number_meet-eq-some a b e = elim (Option-cases (merge_multiple a.multiple_of b.multiple_of)) [
    | inl n ↦ absurd (ground arith)
    | inr (m, is) ↦ (m, is, ground arith)
  ]

  -- `p` divided by `q` is an integer other than zero, and all three are finite.
  pub record IsMultiple (p q : D) : Type 0 where
    pub divisor : d.eq q d.nought ≡ false
    pub finite_p : d.is_finite p ≡ true
    pub finite_q : d.is_finite q ≡ true
    pub finite : d.is_finite (d.div p q) ≡ true
    pub nonzero : d.eq (d.div p q) d.nought ≡ false
    pub is_whole : IsWhole (d.div p q)

  -- Of two divisors that are both there one is a multiple of the other.
  abbrev pub Nested : Option D → Option D → Type 0
  Nested a b = (p q : D) → a ≡ some p → b ≡ some q → IsMultiple p q ⊎ IsMultiple q p

  IsMultiple→is_integral : (p q : D) → IsMultiple p q → is_integral_multiple_of p q ≡ true
  unfolding is_integral_multiple_of
  IsMultiple→is_integral p q h = ground arith

  merge_multiple-some :
      (a b : Option D) → Nested a b → (m : Option D) × (merge_multiple a b ≡ some m)
  unfolding merge_multiple
  merge_multiple-some none b h = (_, refl)
  merge_multiple-some (some a) none h = (_, refl)
  merge_multiple-some (some a) (some b) h = elim (Bool-cases (is_integral_multiple_of a b)) [
    | inl e ↦ (some a, rw e refl)
    | inr e ↦ elim (h a b refl refl) [
      | inl m ↦ absurd (ground (arith, IsMultiple→is_integral a b m))
      | inr m ↦ (some b, rw (e, IsMultiple→is_integral b a m) refl)
    ]
  ]

  -- Number constraints whose divisors are nested have a meet.
  pub number_meet-some :
      (a b : NumberLattice D)
      → Nested a.multiple_of b.multiple_of
      → (c : NumberLattice D) × (number_meet a b ≡ some c)
  unfolding number_meet
  number_meet-some a b h =
      let (m, e) = merge_multiple-some a.multiple_of b.multiple_of h in (met a b m, rw e refl)

  integral_ok-or :
      (p q : Bool) (x : D) → integral_ok (p || q) x ≡ (integral_ok p x && integral_ok q x)
  integral_ok-or p q x = ground arith

  -- `DividesExactly` at the number behind a handle, if there is one.
  abbrev pub ExactAt : Option D → Option D → Option D → Type 0
  ExactAt a b none = Unit
  ExactAt a b (some x) = DividesExactly a b x

module _ {D : Type 0} ⦃d : Double D⦄ (order : IsOrdered D) (rounding : RoundsWhole D) where
  in_lattice-meet :
      (a b : NumberLattice D) {c : NumberLattice D} (x : D)
      → HasBounds a
      → HasBounds b
      → DividesExactly a.multiple_of b.multiple_of x
      → number_meet a b ≡ some c
      → in_lattice c x ≡ (in_lattice a x && in_lattice b x)
  in_lattice-meet a b x ba bb ex e =
      let (m, merged, is) = number_meet-eq-some a b e in
      rw is (
        rw
          (
            minimum_ok-stricter order a.minimum b.minimum a.exclusive_min b.exclusive_min x ba.lower
                bb.lower,
            maximum_ok-stricter order a.maximum b.maximum a.exclusive_max b.exclusive_max x ba.upper
                bb.upper,
            merge_multiple-multiple_ok rounding a.multiple_of b.multiple_of x ex merged,
            integral_ok-or a.integral b.integral x,
          )
          (interleave (minimum_ok a.minimum a.exclusive_min x)
            (minimum_ok b.minimum b.exclusive_min x) (maximum_ok a.maximum a.exclusive_max x)
            (maximum_ok b.maximum b.exclusive_max x) (multiple_ok a.multiple_of x)
            (multiple_ok b.multiple_of x) (integral_ok a.integral x) (integral_ok b.integral x)))

  in_lattice-subsumes :
      (a b : NumberLattice D) (x : D)
      → HasBounds a
      → HasBounds b
      → DividesExactly a.multiple_of b.multiple_of x
      → number_subsumes a b ≡ true
      → in_lattice a x ≡ true
      → in_lattice b x ≡ true
  unfolding number_subsumes
  in_lattice-subsumes a b x ba bb ex e h = ground (
    arith,
    strict-minimum_ok order a.minimum b.minimum a.exclusive_min b.exclusive_min x ba.lower bb.lower,
    strict-maximum_ok order a.maximum b.maximum a.exclusive_max b.exclusive_max x ba.upper bb.upper,
    strict-multiple_ok rounding a.multiple_of b.multiple_of x ex,
  )

  -- Whenever two number constraint sets have a meet, it accepts exactly the values that both
  -- accept, if no bound is NaN and the quotients by a divisor and its multiple are not rounded.
  pub accepts_number-meet :
      {H : Type 0} (rt : Runtime H D) (a b : NumberLattice D) {c : NumberLattice D} (h : H)
      → HasBounds a
      → HasBounds b
      → ExactAt a.multiple_of b.multiple_of (rt.as_f64 h)
      → number_meet a b ≡ some c
      → accepts_number rt c h ≡ (accepts_number rt a h && accepts_number rt b h)
  unfolding accepts_number
  accepts_number-meet rt a b h ba bb ex e = elim (Option-cases (rt.as_f64 h)) [
    | inl n ↦ ground arith
    | inr (x, is) ↦ ground (arith, in_lattice-meet a b x ba bb (rw is at ex) e)
  ]

  -- A subsumption between number constraint sets is one between the sets of accepted values, if no
  -- bound is NaN and the quotients by a divisor and its multiple are not rounded.
  pub accepts_number-subsumes :
      {H : Type 0} (rt : Runtime H D) (a b : NumberLattice D) (h : H)
      → HasBounds a
      → HasBounds b
      → ExactAt a.multiple_of b.multiple_of (rt.as_f64 h)
      → number_subsumes a b ≡ true
      → accepts_number rt a h ≡ true
      → accepts_number rt b h ≡ true
  unfolding accepts_number
  accepts_number-subsumes rt a b h ba bb ex e p = elim (Option-cases (rt.as_f64 h)) [
    | inl n ↦ ground arith
    | inr (x, is) ↦ ground (arith, in_lattice-subsumes a b x ba bb (rw is at ex) e)
  ]
