-- ===== src/Canonicalize/Normalize.antt =====
-- `NormalizeStringConstraints` and `NormalizeNumberConstraints`: a constraint that always holds is
-- removed.
use json_schema_mlir.Prelude.{
  ℤ, pos, eqb_ℤ, Bool, true, not, ◌||◌, Option, none, some, Option-cases, inl, inr, ◌≡◌, arith,
  if◌then◌else◌,
}
use json_schema_mlir.Float.{Double, RoundsWhole}
use json_schema_mlir.Runtime.{Runtime, IsRuntime}
use json_schema_mlir.Ops.{ValidateStringOp, ValidateNumberOp}
use json_schema_mlir.Canonicalize.StringLattice.{from_string_op, accepts_string}
use json_schema_mlir.Canonicalize.NumberLattice.{from_number_op, in_lattice, accepts_number}

abbrev not_zero : Option ℤ → Bool
not_zero none = true
not_zero (some m) = not (eqb_ℤ m (pos 0))

-- `none` is a failed match.
unfoldable pub normalize_string : ValidateStringOp → Option ValidateStringOp
normalize_string op =
    if not_zero op.min_length then none else some (record op { min_length = none })

module _ {D : Type 0} ⦃d : Double D⦄ where
  abbrev not_one : Option D → Bool
  not_one none = true
  not_one (some m) = not (d.eq m d.one)

  unfoldable pub normalize_number : ValidateNumberOp D → Option (ValidateNumberOp D)
  normalize_number op =
      if not op.integral || not_one op.multiple_of
      then none
      else some (record op { multiple_of = none })

module _ {H D : Type 0} (rt : Runtime H D) (laws : IsRuntime rt) where
  -- Removing `min_length = 0` changes no verdict.
  pub accepts_string-normalize_string :
      (op : ValidateStringOp) {op' : ValidateStringOp} (h : H)
      → normalize_string op ≡ some op'
      → accepts_string rt (from_string_op op') h ≡ accepts_string rt (from_string_op op) h
  unfolding normalize_string accepts_string
  accepts_string-normalize_string op h e = ground (arith, laws.str_len_defined h)

module _ {H D : Type 0} ⦃d : Double D⦄ (rounding : RoundsWhole D) (rt : Runtime H D) where
  in_lattice-normalize_number :
      (op : ValidateNumberOp D) {op' : ValidateNumberOp D} (x : D)
      → normalize_number op ≡ some op'
      → in_lattice (from_number_op op') x ≡ in_lattice (from_number_op op) x
  unfolding normalize_number
  in_lattice-normalize_number op x e = elim (Option-cases op.multiple_of) [
    | inl n ↦ absurd (ground arith)
    | inr (m, is) ↦ ground (arith, rounding.round_even-trunc (d.div x m), rounding.div-one x m)
  ]

  -- Removing `multiple_of = 1.0` from an integral number validator changes no verdict.
  pub accepts_number-normalize_number :
      (op : ValidateNumberOp D) {op' : ValidateNumberOp D} (h : H)
      → normalize_number op ≡ some op'
      → accepts_number rt (from_number_op op') h ≡ accepts_number rt (from_number_op op) h
  unfolding accepts_number
  accepts_number-normalize_number op h e = elim (Option-cases (rt.as_f64 h)) [
    | inl n ↦ ground arith
    | inr (x, is) ↦ ground (arith, in_lattice-normalize_number op x e)
  ]
