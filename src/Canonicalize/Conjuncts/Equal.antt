-- ===== src/Canonicalize/Conjuncts/Equal.antt =====
-- `operator==` of the two lattices, and the values that they accept.
use json_schema_mlir.Prelude.{
  ℤ, Bool, true, Option, none, some, Option-cases, inl, inr, ◌≡◌, refl, ap, arith, Bytes,
  bytes_eq→eq, eqb_ℤ,
}
use json_schema_mlir.Float.{Double, IsOrdered, RoundsWhole}
use json_schema_mlir.Runtime.{Runtime}
use json_schema_mlir.Semantics.{minimum_ok, maximum_ok, multiple_ok}
use json_schema_mlir.Canonicalize.Bounds.{option_eq, attr_eq}
use json_schema_mlir.Canonicalize.StringLattice.{StringLattice, string_eq}
use json_schema_mlir.Canonicalize.NumberLattice.{
  NumberLattice, number_eq, in_lattice, accepts_number,
}

attr_eq→eq : (a b : Option Bytes) → attr_eq a b ≡ true → a ≡ b
attr_eq→eq none none e = refl
attr_eq→eq (some a) (some b) e = ap {B = Option Bytes} some (bytes_eq→eq a b e)
attr_eq→eq _ _ e = absurd (ground arith)

eq_ℤ→eq : (a b : Option ℤ) → option_eq eqb_ℤ a b ≡ true → a ≡ b
eq_ℤ→eq a b e = ground arith

pub string_eq→eq : (a b : StringLattice) → string_eq a b ≡ true → a ≡ b
unfolding string_eq
string_eq→eq a b e = cc (
  eq_ℤ→eq a.min_length b.min_length (ground arith),
  eq_ℤ→eq a.max_length b.max_length (ground arith),
  attr_eq→eq a.regex b.regex (ground arith),
  attr_eq→eq a.format b.format (ground arith),
)

module _ {D : Type 0} ⦃d : Double D⦄ (order : IsOrdered D) (rounding : RoundsWhole D) where
  open order use {lt-eq, eq-lt, eq_symm, eq_trans}

  equal-minimum_ok :
      (a b : Option D) (p : Bool) (x : D)
      → option_eq d.eq a b ≡ true
      → minimum_ok a p x ≡ minimum_ok b p x
  equal-minimum_ok none none p x e = refl
  equal-minimum_ok (some a) (some b) p x e =
      ground (arith, eq_symm a b, eq-lt a b x, eq-lt b a x, eq_trans x a b, eq_trans x b a)
  equal-minimum_ok _ _ p x e = absurd (ground arith)

  equal-maximum_ok :
      (a b : Option D) (p : Bool) (x : D)
      → option_eq d.eq a b ≡ true
      → maximum_ok a p x ≡ maximum_ok b p x
  equal-maximum_ok none none p x e = refl
  equal-maximum_ok (some a) (some b) p x e =
      ground (arith, eq_symm a b, lt-eq x a b, lt-eq x b a, eq_trans x a b, eq_trans x b a)
  equal-maximum_ok _ _ p x e = absurd (ground arith)

  equal-multiple_ok :
      (a b : Option D) (x : D) → option_eq d.eq a b ≡ true → multiple_ok a x ≡ multiple_ok b x
  equal-multiple_ok none none x e = refl
  equal-multiple_ok (some a) (some b) x e = rounding.div-eq x a b e
  equal-multiple_ok _ _ x e = absurd (ground arith)

  in_lattice-eq :
      (a b : NumberLattice D) (x : D) → number_eq a b ≡ true → in_lattice a x ≡ in_lattice b x
  unfolding number_eq
  in_lattice-eq a b x e = ground (
    arith,
    equal-minimum_ok a.minimum b.minimum a.exclusive_min x,
    equal-maximum_ok a.maximum b.maximum a.exclusive_max x,
    equal-multiple_ok a.multiple_of b.multiple_of x,
  )

  -- Number constraints that compare equal accept the same values.
  pub accepts_number-eq :
      {H : Type 0} (rt : Runtime H D) (a b : NumberLattice D) (h : H)
      → number_eq a b ≡ true
      → accepts_number rt a h ≡ accepts_number rt b h
  unfolding accepts_number
  accepts_number-eq rt a b h e = elim (Option-cases (rt.as_f64 h)) [
    | inl n ↦ ground arith
    | inr (x, is) ↦ ground (arith, in_lattice-eq a b x e)
  ]
