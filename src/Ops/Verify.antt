-- ===== src/Ops/Verify.antt =====
-- The verifiers of lib/Schema/SchemaOps.cpp. `llvm::Regex::isValid` is a parameter.
pub mod Names
use json_schema_mlir.Prelude.{
  ℤ, pos, ltb_ℤ, Bool, true, false, not, ◌&&◌, ◌||◌, ◌==◌, Option, none, some, is_some, List, [],
  ◌∷◌, length, Bytes, bytes_eq,
}
use json_schema_mlir.Float.{Double}
use json_schema_mlir.Ops.{ValidateStringOp, ValidateNumberOp, StructOp}

pub data VerifyError : Type 0 where
  negative_min_length negative_max_length max_below_min : VerifyError
  empty_pattern bad_pattern empty_format : VerifyError
  minimum_above_maximum exclusive_minimum_alone exclusive_maximum_alone bad_multiple_of :
      VerifyError
  empty_type_name field_count_mismatch empty_field_name duplicate_field_name : VerifyError
  undeclared_required_field duplicate_required_field : VerifyError

pub data LogicalResult : Type 0 where
  success : LogicalResult
  failure : VerifyError → LogicalResult

infixl 5 ◌>>◌
abbrev pub ◌>>◌ : LogicalResult → LogicalResult → LogicalResult
success >> r = r
failure e >> r = failure e

-- `if (bad) return emitOpError(...)`.
abbrev pub reject_if : Bool → VerifyError → LogicalResult
reject_if true e = failure e
reject_if false e = success

abbrev pub is_negative : ℤ → Bool
is_negative n = ltb_ℤ n (pos 0)

abbrev pub verify_min_length : Option ℤ → LogicalResult
verify_min_length none = success
verify_min_length (some m) = reject_if (is_negative m) negative_min_length

abbrev pub below_min : ℤ → Option ℤ → Bool
below_min n none = false
below_min n (some m) = ltb_ℤ n m

abbrev pub verify_max_length : Option ℤ → Option ℤ → LogicalResult
verify_max_length min none = success
verify_max_length min (some n) = do
  reject_if (is_negative n) negative_max_length
  reject_if (below_min n min) max_below_min

abbrev pub is_empty : Bytes → Bool
is_empty [] = true
is_empty (c ∷ cs) = false

abbrev pub verify_pattern : (Bytes → Bool) → Option Bytes → LogicalResult
verify_pattern valid none = success
verify_pattern valid (some p) = do
  reject_if (is_empty p) empty_pattern
  reject_if (not (valid p)) bad_pattern

abbrev pub verify_format : Option Bytes → LogicalResult
verify_format none = success
verify_format (some f) = reject_if (is_empty f) empty_format

unfoldable pub verify_string : (Bytes → Bool) → ValidateStringOp → LogicalResult
verify_string valid op = do
  verify_min_length op.min_length
  verify_max_length op.min_length op.max_length
  verify_pattern valid op.regex
  verify_format op.format

module _ {D : Type 0} ⦃d : Double D⦄ where
  abbrev pub exceeds : Option D → Option D → Bool
  exceeds (some lo) (some hi) = d.lt hi lo
  exceeds _ _ = false

  abbrev pub not_positive : Option D → Bool
  not_positive none = false
  not_positive (some m) = not (d.lt d.nought m)

  unfoldable pub verify_number : ValidateNumberOp D → LogicalResult
  verify_number op = do
    reject_if (exceeds op.minimum op.maximum) minimum_above_maximum
    reject_if (op.exclusive_minimum && not (is_some op.minimum)) exclusive_minimum_alone
    reject_if (op.exclusive_maximum && not (is_some op.maximum)) exclusive_maximum_alone
    reject_if (not_positive op.multiple_of) bad_multiple_of

-- `DenseSet::contains`.
abbrev pub contains : List Bytes → Bytes → Bool
contains [] name = false
contains (x ∷ xs) name = bytes_eq x name || contains xs name

-- The loop over `field_names`; `declared` is the set so far.
pub verify_names : List Bytes → List Bytes → LogicalResult
verify_names declared [] = success
verify_names declared (name ∷ names) = do
  reject_if (is_empty name) empty_field_name
  reject_if (contains declared name) duplicate_field_name
  verify_names (name ∷ declared) names

-- The loop over `required_fields`.
pub verify_required : List Bytes → List Bytes → List Bytes → LogicalResult
verify_required declared seen [] = success
verify_required declared seen (name ∷ names) = do
  reject_if (not (contains declared name)) undeclared_required_field
  reject_if (contains seen name) duplicate_required_field
  verify_required declared (name ∷ seen) names

abbrev pub required_of : Option (List Bytes) → List Bytes
required_of none = []
required_of (some names) = names

unfoldable pub verify_struct : StructOp → LogicalResult
unfolding verify_names verify_required
verify_struct op = do
  reject_if (is_empty op.type_name) empty_type_name
  reject_if (not (length op.field_names == length op.field_results)) field_count_mismatch
  verify_names [] op.field_names
  verify_required op.field_names [] (required_of op.required_fields)
