-- ===== src/Float/Halves.antt =====
-- Whole and half numbers with infinity and NaN: a type of numbers that meets the facts that proofs rely on.
use json_schema_mlir.Prelude.{
  ℕ, ◌+◌, ◌*◌, ◌/◌, ◌%◌, Bool, true, false, arith, ltb, ◌==◌, if◌then◌else◌,
}
use json_schema_mlir.Float.{Double, IsOrdered, RoundsWhole}

-- `fraction n` is n + 1/2.
pub data Halves : Type 0 where
  nan : Halves
  infinite : Halves
  whole : ℕ → Halves
  fraction : ℕ → Halves

abbrev on_halves : (ℕ → ℕ → Bool) → Halves → Halves → Bool
on_halves f nan y = false
on_halves f x nan = false
on_halves f infinite infinite = f 0 0
on_halves f infinite y = f 1 0
on_halves f x infinite = f 0 1
on_halves f (whole a) (whole b) = f (2 * a) (2 * b)
on_halves f (whole a) (fraction b) = f (2 * a) (2 * b + 1)
on_halves f (fraction a) (whole b) = f (2 * a + 1) (2 * b)
on_halves f (fraction a) (fraction b) = f (2 * a + 1) (2 * b + 1)

abbrev quotient : ℕ → ℕ → Halves
quotient a b =
    if b == 0
    then (if a == 0 then nan else infinite)
    else if a % b == 0
    then whole (a / b)
    else fraction (a / b)

abbrev div_halves : Halves → Halves → Halves
div_halves (whole a) (whole b) = quotient a b
div_halves (whole a) (fraction b) = quotient (2 * a) (2 * b + 1)
div_halves (fraction a) (whole b) = quotient (2 * a + 1) (2 * b)
div_halves (fraction a) (fraction b) = quotient (2 * a + 1) (2 * b + 1)
div_halves nan y = nan
div_halves x nan = nan
div_halves infinite infinite = nan
div_halves infinite y = infinite
div_halves x infinite = whole 0

abbrev mul_halves : Halves → Halves → Halves
mul_halves (whole a) (whole b) = whole (a * b)
mul_halves (whole a) infinite = if a == 0 then nan else infinite
mul_halves infinite (whole b) = if b == 0 then nan else infinite
mul_halves infinite infinite = infinite
mul_halves infinite (fraction b) = infinite
mul_halves (fraction a) infinite = infinite
mul_halves _ _ = nan

abbrev floor_half : Halves → Halves
floor_half (fraction n) = whole n
floor_half x = x

abbrev even_half : Halves → Halves
even_half (fraction n) = if n % 2 == 0 then whole n else whole (n + 1)
even_half x = x

abbrev finite_half : Halves → Bool
finite_half nan = false
finite_half infinite = false
finite_half _ = true

instance abbrev pub halves_double : Double Halves
halves_double = record {
  nought = whole 0;
  one = whole 1;
  lt = on_halves ltb;
  eq = on_halves ◌==◌;
  is_finite = finite_half;
  div = div_halves;
  mul = mul_halves;
  trunc = floor_half;
  round_even = even_half;
}

pub Halves-IsOrdered : IsOrdered Halves
Halves-IsOrdered = record {
  lt_trans = λ x y z p q. ground arith;
  eq_symm = λ x y p. ground arith;
  eq_trans = λ x y z p q. ground arith;
  lt-eq = λ x y z p q. ground arith;
  eq-lt = λ x y z p q. ground arith;
  lt_irrefl = λ x. ground arith;
  trichotomy = λ x y p q. ground arith;
}

pub Halves-RoundsWhole : RoundsWhole Halves
Halves-RoundsWhole = record {
  round_even-trunc = λ x. ground arith;
  mul-IsWhole = λ x y p q f r. ground arith;
  eq-IsWhole = λ x y p q. ground arith;
  div-one = λ x m p q. ground arith;
  div-eq = λ x m n p. ground arith;
}
