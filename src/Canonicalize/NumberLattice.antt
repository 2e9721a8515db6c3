-- ===== src/Canonicalize/NumberLattice.antt =====
-- `struct NumberLattice`: the constraints of a `schema.validate_number`, and `isIntegralMultipleOf`.
pub mod Bounds
pub mod Divisors
pub mod Meet
use json_schema_mlir.Prelude.{
  Bool, true, false, not, ◌&&◌, ◌||◌, Option, none, some, is_some, if◌then◌else◌,
}
use json_schema_mlir.Ops.{Value, ValidateNumberOp}
use json_schema_mlir.Runtime.{Runtime}
use json_schema_mlir.Float.{Double}
use json_schema_mlir.Semantics.{accepts_number_by, minimum_ok, maximum_ok, multiple_ok, integral_ok}
use json_schema_mlir.Canonicalize.Bounds.{option_eq, first_of}

pub record NumberLattice (D : Type 0) : Type 0 where
  pub minimum : Option D
  pub maximum : Option D
  pub multiple_of : Option D
  pub exclusive_min : Bool
  pub exclusive_max : Bool
  pub integral : Bool

abbrev bool_eq : Bool → Bool → Bool
bool_eq true b = b
bool_eq false b = not b

module _ {D : Type 0} where
  abbrev pub from_number_op : ValidateNumberOp D → NumberLattice D
  from_number_op op = record {
    minimum = op.minimum;
    maximum = op.maximum;
    multiple_of = op.multiple_of;
    exclusive_min = op.exclusive_minimum;
    exclusive_max = op.exclusive_maximum;
    integral = op.integral;
  }

  -- The operation that `materialize` creates.
  abbrev pub to_number_op : Value → NumberLattice D → ValidateNumberOp D
  to_number_op v l = record {
    input = v;
    minimum = l.minimum;
    maximum = l.maximum;
    multiple_of = l.multiple_of;
    exclusive_minimum = l.exclusive_min;
    exclusive_maximum = l.exclusive_max;
    integral = l.integral;
  }

module _ {D : Type 0} ⦃d : Double D⦄ where
  unfoldable pub is_integral_multiple_of : D → D → Bool
  is_integral_multiple_of a b =
      if d.eq b d.nought || not (d.is_finite a) || not (d.is_finite b)
      then false
      else let quotient = d.div a b in
        d.is_finite quotient && not (d.eq quotient d.nought) && d.eq quotient (d.trunc quotient)

  unfoldable pub number_eq : NumberLattice D → NumberLattice D → Bool
  number_eq a b =
      option_eq d.eq a.minimum b.minimum
      && option_eq d.eq a.maximum b.maximum
      && option_eq d.eq a.multiple_of b.multiple_of
      && bool_eq a.exclusive_min b.exclusive_min
      && bool_eq a.exclusive_max b.exclusive_max
      && bool_eq a.integral b.integral

  unfoldable pub lower_at_least_as_strict : Option D → Bool → Option D → Bool → Bool
  lower_at_least_as_strict a a_excl none b_excl = true
  lower_at_least_as_strict none a_excl (some b) b_excl = false
  lower_at_least_as_strict (some a) a_excl (some b) b_excl =
      if d.lt b a then true else if d.lt a b then false else a_excl || not b_excl

  unfoldable pub upper_at_least_as_strict : Option D → Bool → Option D → Bool → Bool
  upper_at_least_as_strict a a_excl none b_excl = true
  upper_at_least_as_strict none a_excl (some b) b_excl = false
  upper_at_least_as_strict (some a) a_excl (some b) b_excl =
      if d.lt a b then true else if d.lt b a then false else a_excl || not b_excl

  -- `rhs.multipleOf && (!multipleOf || !isIntegralMultipleOf(*multipleOf, *rhs.multipleOf))`.
  abbrev pub weaker_multiple : Option D → Option D → Bool
  weaker_multiple a none = false
  weaker_multiple none (some b) = true
  weaker_multiple (some a) (some b) = not (is_integral_multiple_of a b)

  unfoldable pub number_subsumes : NumberLattice D → NumberLattice D → Bool
  number_subsumes a b =
      if not (lower_at_least_as_strict a.minimum a.exclusive_min b.minimum b.exclusive_min)
      then false
      else if not (upper_at_least_as_strict a.maximum a.exclusive_max b.maximum b.exclusive_max)
      then false
      else if weaker_multiple a.multiple_of b.multiple_of
      then false
      else if b.integral && not a.integral
      then false
      else true

  -- `none` is the refused merge; otherwise the merged divisor, which may be absent.
  unfoldable pub merge_multiple : Option D → Option D → Option (Option D)
  merge_multiple (some a) (some b) =
      if is_integral_multiple_of a b
      then some (some a)
      else if is_integral_multiple_of b a
      then some (some b)
      else none
  merge_multiple none b = some (first_of none b)
  merge_multiple (some a) none = some (first_of (some a) none)

  abbrev with_multiple : NumberLattice D → Option (Option D) → Option (NumberLattice D)
  with_multiple l none = none
  with_multiple l (some m) = some (record l { multiple_of = m })

  abbrev pub keep_lower : NumberLattice D → NumberLattice D → Bool
  keep_lower a b = lower_at_least_as_strict a.minimum a.exclusive_min b.minimum b.exclusive_min

  abbrev pub keep_upper : NumberLattice D → NumberLattice D → Bool
  keep_upper a b = upper_at_least_as_strict a.maximum a.exclusive_max b.maximum b.exclusive_max

  unfoldable pub number_meet : NumberLattice D → NumberLattice D → Option (NumberLattice D)
  number_meet a b =
      with_multiple
        (record {
          minimum = if keep_lower a b then a.minimum else b.minimum;
          maximum = if keep_upper a b then a.maximum else b.maximum;
          multiple_of = none;
          exclusive_min = if keep_lower a b then a.exclusive_min else b.exclusive_min;
          exclusive_max = if keep_upper a b then a.exclusive_max else b.exclusive_max;
          integral = a.integral || b.integral;
        })
        (merge_multiple a.multiple_of b.multiple_of)

  -- The tests of one number.
  abbrev pub in_lattice : NumberLattice D → D → Bool
  in_lattice l x =
      minimum_ok l.minimum l.exclusive_min x
      && maximum_ok l.maximum l.exclusive_max x
      && multiple_ok l.multiple_of x
      && integral_ok l.integral x

  unfoldable pub accepts_number : {H : Type 0} → Runtime H D → NumberLattice D → H → Bool
  unfolding accepts_number_by
  accepts_number rt l = accepts_number_by rt (in_lattice l)
