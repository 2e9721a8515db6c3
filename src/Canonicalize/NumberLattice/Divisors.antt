-- ===== src/Canonicalize/NumberLattice/Divisors.antt =====
-- `multipleOf` and `isIntegralMultipleOf`, and the multiples.
use json_schema_mlir.Prelude.{
  true, false, ◌&&◌, inl, inr, Option, none, some, ◌≡◌, refl, sym, ◌∙◌, arith, Bool-cases,
}
use json_schema_mlir.Float.{Double, RoundsWhole, IsWhole, IsExact}
use json_schema_mlir.Semantics.{multiple_ok}
use json_schema_mlir.Canonicalize.NumberLattice.{
  is_integral_multiple_of, weaker_multiple, merge_multiple,
}

-- Where one divisor is a multiple of the other, the quotients of `x` by the two are exact.
abbrev pub DividesExactly : {D : Type 0} ⦃d : Double D⦄ → Option D → Option D → D → Type 0
DividesExactly (some a) (some b) x =
    (is_integral_multiple_of a b ≡ true → IsExact x a b)
    × (is_integral_multiple_of b a ≡ true → IsExact x b a)
DividesExactly a none x = Unit
DividesExactly none (some b) x = Unit

module _ {D : Type 0} ⦃d : Double D⦄ where
  -- What a true answer of `isIntegralMultipleOf` says of the quotient.
  pub is_integral_multiple_of-IsWhole :
      (a b : D)
      → is_integral_multiple_of a b ≡ true
      → (d.is_finite (d.div a b) ≡ true) × (d.eq (d.div a b) d.nought ≡ false) × IsWhole (d.div a b)
  unfolding is_integral_multiple_of
  is_integral_multiple_of-IsWhole a b e = ground arith

module _ {D : Type 0} ⦃d : Double D⦄ (laws : RoundsWhole D) where
  open laws use {round_even-trunc, mul-IsWhole, eq-IsWhole}

  -- A multiple of `a` is a multiple of `b`, if `a` is an integral multiple of `b`.
  multiple_ok_chain :
      (a b x : D)
      → is_integral_multiple_of a b ≡ true
      → IsExact x a b
      → multiple_ok (some a) x ≡ true
      → multiple_ok (some b) x ≡ true
  multiple_ok_chain a b x m exact h =
      let (finite, ne, whole) = is_integral_multiple_of-IsWhole a b m in
      let by_a : IsWhole (d.div x a) = sym (round_even-trunc (d.div x a)) ∙ h in
      round_even-trunc (d.div x b)
      ∙ eq-IsWhole (d.mul (d.div x a) (d.div a b)) (d.div x b) exact
          (mul-IsWhole (d.div x a) (d.div a b) by_a whole finite ne)

  pub strict-multiple_ok :
      (a b : Option D) (x : D)
      → DividesExactly a b x
      → weaker_multiple a b ≡ false
      → multiple_ok a x ≡ true
      → multiple_ok b x ≡ true
  strict-multiple_ok a none x ex e h = refl
  strict-multiple_ok none (some b) x ex e h = ground arith
  strict-multiple_ok (some a) (some b) x ex e h =
      let m : is_integral_multiple_of a b ≡ true = ground arith in
      multiple_ok_chain a b x m (ex.0 m) h

  -- The merged divisor tests for both.
  pub merge_multiple-multiple_ok :
      (a b : Option D) {c : Option D} (x : D)
      → DividesExactly a b x
      → merge_multiple a b ≡ some c
      → multiple_ok c x ≡ (multiple_ok a x && multiple_ok b x)
  unfolding merge_multiple
  merge_multiple-multiple_ok none b x ex e = ground arith
  merge_multiple-multiple_ok (some a) none x ex e = ground arith
  merge_multiple-multiple_ok (some a) (some b) x ex e =
      elim (Bool-cases (is_integral_multiple_of a b)) [
        | inl m ↦ ground (arith, multiple_ok_chain a b x m (ex.0 m))
        | inr r ↦ elim (Bool-cases (is_integral_multiple_of b a)) [
          | inl m ↦ ground (arith, multiple_ok_chain b a x m (ex.1 m))
          | inr s ↦ ground arith
        ]
      ]
