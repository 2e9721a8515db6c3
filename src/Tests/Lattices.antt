-- ===== src/Tests/Lattices.antt =====
-- Witnesses for the lattices and the canonicalization patterns.
use json_schema_mlir.Prelude.{
  ◌≡◌, refl, ◌↔◌, ◌&&◌, bytes_eq, arith, pos, true, false, none, some, [], ◌∷◌, Bytes,
}
use json_schema_mlir.Float.Halves.{
  Halves, whole, halves_double, Halves-IsOrdered, Halves-RoundsWhole,
}
use json_schema_mlir.Canonicalize.Bounds.{tightest_lower, tightest_upper}
use json_schema_mlir.Semantics.{accepts_string_by, accepts_number_by}
use json_schema_mlir.Ops.{ValidateStringOp, ValidateNumberOp}
use json_schema_mlir.Ops.Verify.{
  success, failure, max_below_min, minimum_above_maximum, verify_string, verify_number,
}
use json_schema_mlir.Canonicalize.StringLattice.{
  StringLattice, string_meet, string_subsumes, accepts_string, to_string_op, from_string_op,
}
use json_schema_mlir.Canonicalize.StringLattice.Meet.{accepts_string-meet, accepts_string-subsumes}
use json_schema_mlir.Canonicalize.StringLattice.Order.{
  string_meet_greatest, string_subsumes-meet_iff,
}
use json_schema_mlir.Canonicalize.NumberLattice.{
  NumberLattice, number_meet, number_subsumes, merge_multiple, is_integral_multiple_of,
  lower_at_least_as_strict, upper_at_least_as_strict, accepts_number, to_number_op,
}
use json_schema_mlir.Canonicalize.NumberLattice.Meet.{accepts_number-meet, accepts_number-subsumes}
use json_schema_mlir.Canonicalize.NumberLattice.Divisors.{DividesExactly}
use json_schema_mlir.Canonicalize.Verified.{verify_string-meet, verify_number-meet}
use json_schema_mlir.Tests.Documents.{Doc, number_doc, text_doc, documents}

abbrev uuid : Bytes
uuid = b'u' ∷ b'u' ∷ []

abbrev from_2 : StringLattice
from_2 = record { min_length = some (pos 2); max_length = none; regex = none; format = none }

abbrev up_to_5 : StringLattice
up_to_5 = record { min_length = none; max_length = some (pos 5); regex = none; format = some uuid }

abbrev from_2_to_5 : StringLattice
from_2_to_5 = record {
  min_length = some (pos 2);
  max_length = some (pos 5);
  regex = none;
  format = some uuid;
}

abbrev anything : StringLattice
anything = record { min_length = none; max_length = none; regex = none; format = none }

abbrev word : Doc
word = text_doc (b'w' ∷ b'o' ∷ [])

meet_from_2 : string_meet from_2 up_to_5 ≡ some from_2_to_5
unfolding string_meet tightest_lower tightest_upper
meet_from_2 = refl

both_subsume :
    (string_subsumes from_2_to_5 from_2 ≡ true) × (string_subsumes from_2 anything ≡ true)
unfolding string_subsumes bytes_eq
both_subsume = (refl, refl)

accepts_string-meet_example :
    accepts_string documents from_2_to_5 word
    ≡ (accepts_string documents from_2 word && accepts_string documents up_to_5 word)
accepts_string-meet_example = accepts_string-meet documents from_2 up_to_5 word meet_from_2

word-accepted : accepts_string documents from_2_to_5 word ≡ true
unfolding accepts_string accepts_string_by
word-accepted = refl

accepts_string-subsumes_example : accepts_string documents from_2 word ≡ true
accepts_string-subsumes_example =
    accepts_string-subsumes documents from_2_to_5 from_2 word both_subsume.0 word-accepted

string_subsumes-meet_iff_example :
    (string_subsumes from_2_to_5 from_2 ≡ true)
    ↔ (string_meet from_2_to_5 from_2 ≡ some from_2_to_5)
string_subsumes-meet_iff_example = string_subsumes-meet_iff from_2_to_5 from_2

string_meet_greatest_example :
    (string_subsumes from_2_to_5 from_2 ≡ true)
    × (string_subsumes from_2_to_5 up_to_5 ≡ true)
    × ((d : StringLattice)
        → string_subsumes d from_2 ≡ true
        → string_subsumes d up_to_5 ≡ true
        → string_subsumes d from_2_to_5 ≡ true)
string_meet_greatest_example = string_meet_greatest from_2 up_to_5 meet_from_2

abbrev above_1 : NumberLattice Halves
above_1 = record {
  minimum = some (whole 1);
  maximum = none;
  multiple_of = some (whole 2);
  exclusive_min = true;
  exclusive_max = false;
  integral = false;
}

abbrev from_1_to_9 : NumberLattice Halves
from_1_to_9 = record {
  minimum = some (whole 1);
  maximum = some (whole 9);
  multiple_of = some (whole 4);
  exclusive_min = false;
  exclusive_max = false;
  integral = true;
}

abbrev above_1_to_9 : NumberLattice Halves
above_1_to_9 = record from_1_to_9 { exclusive_min = true }

number_meet_from_1 : number_meet above_1 from_1_to_9 ≡ some above_1_to_9
unfolding number_meet merge_multiple is_integral_multiple_of lower_at_least_as_strict
    upper_at_least_as_strict
number_meet_from_1 = refl

exact_2_4 : DividesExactly (some (whole 2)) (some (whole 4)) (whole 8)
unfolding is_integral_multiple_of
exact_2_4 = (λ e. absurd (ground arith), λ e. refl)

accepts_number-meet_example : accepts_number documents above_1_to_9 (number_doc (whole 8)) ≡ (
    accepts_number documents above_1 (number_doc (whole 8))
    && accepts_number documents from_1_to_9 (number_doc (whole 8)))
accepts_number-meet_example =
    accepts_number-meet Halves-IsOrdered Halves-RoundsWhole documents above_1 from_1_to_9
      (number_doc (whole 8)) (record { lower = refl; upper = tt })
      (record { lower = refl; upper = refl }) exact_2_4 number_meet_from_1

number_subsumes-above_1 : number_subsumes above_1_to_9 above_1 ≡ true
unfolding number_subsumes is_integral_multiple_of lower_at_least_as_strict upper_at_least_as_strict
number_subsumes-above_1 = refl

eight-accepted : accepts_number documents above_1_to_9 (number_doc (whole 8)) ≡ true
unfolding accepts_number accepts_number_by
eight-accepted = refl

accepts_number-subsumes_example : accepts_number documents above_1 (number_doc (whole 8)) ≡ true
accepts_number-subsumes_example =
    accepts_number-subsumes Halves-IsOrdered Halves-RoundsWhole documents above_1_to_9 above_1
      (number_doc (whole 8)) (record { lower = refl; upper = refl })
      (record { lower = refl; upper = tt }) (exact_2_4.1, exact_2_4.0) number_subsumes-above_1
      eight-accepted

-- Two verified operations whose meet no string meets.
abbrev at_least_5 : ValidateStringOp
at_least_5 = record {
  input = 0;
  min_length = some (pos 5);
  max_length = none;
  regex = none;
  format = none;
}

abbrev at_most_3 : ValidateStringOp
at_most_3 = record {
  input = 0;
  min_length = none;
  max_length = some (pos 3);
  regex = none;
  format = none;
}

abbrev five_to_3 : StringLattice
five_to_3 = record {
  min_length = some (pos 5);
  max_length = some (pos 3);
  regex = none;
  format = none;
}

strings-verified :
    (verify_string (λ p. true) at_least_5 ≡ success)
    × (verify_string (λ p. true) at_most_3 ≡ success)
unfolding verify_string
strings-verified = (refl, refl)

meet_at_least_5 :
    string_meet (from_string_op at_least_5) (from_string_op at_most_3) ≡ some five_to_3
unfolding string_meet tightest_lower tightest_upper
meet_at_least_5 = refl

verify_string-meet_example :
    verify_string (λ p. true) (to_string_op 0 five_to_3) ≡ failure max_below_min
verify_string-meet_example =
    verify_string-meet (λ p. true) at_least_5 at_most_3 0 strings-verified.0 strings-verified.1
      meet_at_least_5

abbrev number_op : NumberLattice Halves → ValidateNumberOp Halves
number_op l = to_number_op 0 l

abbrev from_9 : NumberLattice Halves
from_9 = record {
  minimum = some (whole 9);
  maximum = none;
  multiple_of = none;
  exclusive_min = false;
  exclusive_max = false;
  integral = false;
}

abbrev below_3 : NumberLattice Halves
below_3 = record from_9 { minimum = none; maximum = some (whole 3); exclusive_max = true }

abbrev from_9_below_3 : NumberLattice Halves
from_9_below_3 = record below_3 { minimum = some (whole 9) }

numbers-verified :
    (verify_number (number_op from_9) ≡ success) × (verify_number (number_op below_3) ≡ success)
unfolding verify_number
numbers-verified = (refl, refl)

meet_from_9 : number_meet from_9 below_3 ≡ some from_9_below_3
unfolding number_meet merge_multiple is_integral_multiple_of lower_at_least_as_strict
    upper_at_least_as_strict
meet_from_9 = refl

verify_number-meet_example :
    verify_number (to_number_op 0 from_9_below_3) ≡ failure minimum_above_maximum
verify_number-meet_example =
    verify_number-meet (number_op from_9) (number_op below_3) 0 numbers-verified.0
      numbers-verified.1 meet_from_9
