-- ===== src/Float.antt =====
-- `double`, as far as the compiler computes with it: its constants, its comparisons, and the
-- operations behind `isIntegralMultipleOf` and the lowered `multipleOf` and `integral` checks. The
-- type and its operations are a parameter, and so are the facts of IEEE 754 that proofs rely on.
pub mod Halves
use json_schema_mlir.Prelude.{◌≡◌, ◌≢◌, ◌⊎◌, Bool, true, false, ◌||◌}

pub record Double (D : Type 0) : Type 0 where
  pub nought : D
  pub one : D
  -- `<` and `==`: false when an operand is NaN.
  pub lt : D → D → Bool
  pub eq : D → D → Bool
  pub is_finite : D → Bool
  pub div : D → D → D
  pub mul : D → D → D
  pub trunc : D → D
  pub round_even : D → D

module _ {D : Type 0} ⦃d : Double D⦄ where
  -- `arith.cmpf` with the ordered predicates.
  abbrev pub ogt : D → D → Bool
  ogt x y = d.lt y x

  abbrev pub oge : D → D → Bool
  oge x y = d.lt y x || d.eq x y

  abbrev pub olt : D → D → Bool
  olt x y = d.lt x y

  abbrev pub ole : D → D → Bool
  ole x y = d.lt x y || d.eq x y

  -- Only NaN differs from itself.
  abbrev pub IsNumber : D → Type 0
  IsNumber x = d.eq x x ≡ true

  abbrev pub IsWhole : D → Type 0
  IsWhole x = d.eq x (d.trunc x) ≡ true

  -- The quotients of `x` by `b` and by `a` differ by the factor `a / b`, with no rounding.
  abbrev pub IsExact : D → D → D → Type 0
  IsExact x a b = d.eq (d.mul (d.div x a) (d.div a b)) (d.div x b) ≡ true

-- Comparisons of IEEE 754 numbers.
pub record IsOrdered (D : Type 0) ⦃d : Double D⦄ : Type 0 where
  pub lt_trans : (x y z : D) → d.lt x y ≡ true → d.lt y z ≡ true → d.lt x z ≡ true
  pub eq_symm : (x y : D) → d.eq x y ≡ true → d.eq y x ≡ true
  pub eq_trans : (x y z : D) → d.eq x y ≡ true → d.eq y z ≡ true → d.eq x z ≡ true
  pub lt-eq : (x y z : D) → d.lt x y ≡ true → d.eq y z ≡ true → d.lt x z ≡ true
  pub eq-lt : (x y z : D) → d.eq x y ≡ true → d.lt y z ≡ true → d.lt x z ≡ true
  pub lt_irrefl : (x : D) → d.lt x x ≡ false
  pub trichotomy :
      (x y : D)
      → IsNumber x
      → IsNumber y
      → (d.lt x y ≡ true) ⊎ (d.eq x y ≡ true) ⊎ (d.lt y x ≡ true)

-- Rounding to integers, and products of integers; the infinities are whole, and are rounded to
-- themselves. A quotient that is an integer is one whichever
-- way it would be rounded.
pub record RoundsWhole (D : Type 0) ⦃d : Double D⦄ : Type 0 where
  pub round_even-trunc : (x : D) → d.eq x (d.round_even x) ≡ d.eq x (d.trunc x)
  -- A finite factor that is not zero: infinity times zero is NaN, which is not whole.
  pub mul-IsWhole :
      (x y : D)
      → IsWhole x
      → IsWhole y
      → d.is_finite y ≡ true
      → d.eq y d.nought ≡ false
      → IsWhole (d.mul x y)
  pub eq-IsWhole : (x y : D) → d.eq x y ≡ true → IsWhole x → IsWhole y
  pub div-one : (x m : D) → d.eq m d.one ≡ true → IsWhole x → IsWhole (d.div x m)
  -- Equal divisors, such as the two zeros, test alike.
  pub div-eq :
      (x m n : D)
      → d.eq m n ≡ true
      → d.eq (d.div x m) (d.round_even (d.div x m)) ≡ d.eq (d.div x n) (d.round_even (d.div x n))
