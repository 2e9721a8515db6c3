-- ===== src/Canonicalize/NumberLattice/Bounds.antt =====
-- `lowerAtLeastAsStrict` and `upperAtLeastAsStrict`, and the numbers within the bounds.
use json_schema_mlir.Prelude.{
  Bool, true, false, ◌&&◌, inl, inr, Option, none, some, ◌≡◌, refl, arith, if◌then◌else◌,
  Bool-cases,
}
use json_schema_mlir.Float.{Double, IsOrdered, IsNumber}
use json_schema_mlir.Semantics.{minimum_ok, maximum_ok}
use json_schema_mlir.Canonicalize.NumberLattice.{lower_at_least_as_strict, upper_at_least_as_strict}

-- A bound is a number, not NaN, where it is present.
abbrev pub IsBound : {D : Type 0} ⦃d : Double D⦄ → Option D → Type 0
IsBound none = Unit
IsBound (some m) = IsNumber m

module _ {D : Type 0} ⦃d : Double D⦄ (laws : IsOrdered D) where
  open laws use {lt_trans, eq_symm, eq_trans, lt-eq, eq-lt, lt_irrefl, trichotomy}

  -- A value within the bound that `lowerAtLeastAsStrict` finds stricter is within the other.
  pub strict-minimum_ok :
      (a b : Option D) (p q : Bool) (x : D)
      → IsBound a
      → IsBound b
      → lower_at_least_as_strict a p b q ≡ true
      → minimum_ok a p x ≡ true
      → minimum_ok b q x ≡ true
  unfolding lower_at_least_as_strict
  strict-minimum_ok a none p q x na nb e h = refl
  strict-minimum_ok none (some b) p q x na nb e h = ground arith
  strict-minimum_ok (some a) (some b) p q x na nb e h = ground (
    arith,
    trichotomy a b na nb,
    lt_trans b a x,
    lt-eq b a x,
    eq_symm x a,
    eq_symm a b,
    eq_trans x a b,
    eq-lt b a x,
  )

  loose-minimum_ok :
      (a b : Option D) (p q : Bool) (x : D)
      → IsBound a
      → IsBound b
      → lower_at_least_as_strict a p b q ≡ false
      → minimum_ok b q x ≡ true
      → minimum_ok a p x ≡ true
  unfolding lower_at_least_as_strict
  loose-minimum_ok a none p q x na nb e h = ground arith
  loose-minimum_ok none (some b) p q x na nb e h = refl
  loose-minimum_ok (some a) (some b) p q x na nb e h = ground (
    arith,
    trichotomy a b na nb,
    lt_trans a b x,
    lt-eq a b x,
    eq_symm x b,
    eq_symm b a,
    eq_symm a b,
    eq_trans x b a,
    eq-lt a b x,
  )

  -- Choosing the stricter lower bound is the conjunction of both.
  pub minimum_ok-stricter :
      (a b : Option D) (p q : Bool) (x : D)
      → IsBound a
      → IsBound b
      → let k = lower_at_least_as_strict a p b q in
        minimum_ok (if k then a else b) (if k then p else q) x
        ≡ (minimum_ok a p x && minimum_ok b q x)
  minimum_ok-stricter a b p q x na nb = elim (Bool-cases (lower_at_least_as_strict a p b q)) [
    | inl e ↦ rw e (ground (arith, strict-minimum_ok a b p q x na nb e))
    | inr e ↦ rw e (ground (arith, loose-minimum_ok a b p q x na nb e))
  ]

  pub strict-maximum_ok :
      (a b : Option D) (p q : Bool) (x : D)
      → IsBound a
      → IsBound b
      → upper_at_least_as_strict a p b q ≡ true
      → maximum_ok a p x ≡ true
      → maximum_ok b q x ≡ true
  unfolding upper_at_least_as_strict
  strict-maximum_ok a none p q x na nb e h = refl
  strict-maximum_ok none (some b) p q x na nb e h = ground arith
  strict-maximum_ok (some a) (some b) p q x na nb e h = ground (
    arith,
    trichotomy a b na nb,
    lt_trans x a b,
    lt-eq x a b,
    eq_trans x a b,
    eq-lt x a b,
    eq_symm a b,
  )

  loose-maximum_ok :
      (a b : Option D) (p q : Bool) (x : D)
      → IsBound a
      → IsBound b
      → upper_at_least_as_strict a p b q ≡ false
      → maximum_ok b q x ≡ true
      → maximum_ok a p x ≡ true
  unfolding upper_at_least_as_strict
  loose-maximum_ok a none p q x na nb e h = ground arith
  loose-maximum_ok none (some b) p q x na nb e h = refl
  loose-maximum_ok (some a) (some b) p q x na nb e h = ground (
    arith,
    trichotomy a b na nb,
    lt_trans x b a,
    lt-eq x b a,
    eq_trans x b a,
    eq-lt x b a,
    eq_symm a b,
    eq_symm b a,
  )

  -- Choosing the stricter upper bound is the conjunction of both.
  pub maximum_ok-stricter :
      (a b : Option D) (p q : Bool) (x : D)
      → IsBound a
      → IsBound b
      → let k = upper_at_least_as_strict a p b q in
        maximum_ok (if k then a else b) (if k then p else q) x
        ≡ (maximum_ok a p x && maximum_ok b q x)
  maximum_ok-stricter a b p q x na nb = elim (Bool-cases (upper_at_least_as_strict a p b q)) [
    | inl e ↦ rw e (ground (arith, strict-maximum_ok a b p q x na nb e))
    | inr e ↦ rw e (ground (arith, loose-maximum_ok a b p q x na nb e))
  ]
