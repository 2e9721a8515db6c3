-- ===== src/Canonicalize/Verified.antt =====
-- The verifiers at the operation that `materialize` creates for a meet.
use json_schema_mlir.Prelude.{
  ◌≡◌, refl, arith, ℤ, Bool, true, false, not, ◌&&◌, Option, none, some, is_some, Bytes,
  if◌then◌else◌,
}
use json_schema_mlir.Float.{Double}
use json_schema_mlir.Ops.{Value, ValidateStringOp, ValidateNumberOp}
use json_schema_mlir.Ops.Verify.{
  max_below_min, minimum_above_maximum, LogicalResult, success, failure, ◌>>◌, reject_if, below_min,
  exceeds, not_positive, is_negative, verify_min_length, verify_max_length, verify_pattern,
  verify_format, verify_string, verify_number,
}
use json_schema_mlir.Canonicalize.Bounds.{tightest_lower, tightest_upper, first_of}
use json_schema_mlir.Canonicalize.StringLattice.{
  StringLattice, from_string_op, to_string_op, string_meet,
}
use json_schema_mlir.Canonicalize.StringLattice.Meet.{string_meet-eq-some}
use json_schema_mlir.Canonicalize.NumberLattice.{
  NumberLattice, from_number_op, to_number_op, number_meet, merge_multiple, keep_lower, keep_upper,
}
use json_schema_mlir.Canonicalize.NumberLattice.Meet.{number_meet-eq-some}

both-succeed : (p q : LogicalResult) → (p >> q) ≡ success → (p ≡ success) × (q ≡ success)
both-succeed success q e = (refl, e)
both-succeed (failure x) q e = absurd (ground arith)

-- The part of `verify_string` on the upper bound that the lower bound does not matter to.
abbrev not_negative : Option ℤ → Bool
not_negative none = true
not_negative (some n) = not (is_negative n)

abbrev max_below : Option ℤ → Option ℤ → Bool
max_below lo none = false
max_below lo (some n) = below_min n lo

verify_min-success : (m : Option ℤ) → verify_min_length m ≡ success → not_negative m ≡ true
verify_min-success m e = ground arith

verify_max-success : (m n : Option ℤ) → verify_max_length m n ≡ success → not_negative n ≡ true
verify_max-success m n e = ground arith

verify_min-meet :
    (a b : Option ℤ)
    → not_negative a ≡ true
    → not_negative b ≡ true
    → verify_min_length (tightest_lower a b) ≡ success
unfolding tightest_lower
verify_min-meet a b p q = ground arith

upper-not_negative :
    (a b : Option ℤ)
    → not_negative a ≡ true
    → not_negative b ≡ true
    → not_negative (tightest_upper a b) ≡ true
unfolding tightest_upper
upper-not_negative a b p q = ground arith

verify_max-lem :
    (m n : Option ℤ)
    → not_negative n ≡ true
    → verify_max_length m n ≡ reject_if (max_below m n) max_below_min
verify_max-lem m n p = ground arith

first_of-pattern :
    (valid : Bytes → Bool) (a b : Option Bytes)
    → verify_pattern valid a ≡ success
    → verify_pattern valid b ≡ success
    → verify_pattern valid (first_of a b) ≡ success
first_of-pattern valid none b p q = q
first_of-pattern valid (some a) b p q = p

first_of-format :
    (a b : Option Bytes)
    → verify_format a ≡ success
    → verify_format b ≡ success
    → verify_format (first_of a b) ≡ success
first_of-format none b p q = q
first_of-format (some a) b p q = p

-- What a verified string validator is known to be.
record IsVerified (valid : Bytes → Bool) (op : ValidateStringOp) : Type 0 where
  min : not_negative op.min_length ≡ true
  max : not_negative op.max_length ≡ true
  regex : verify_pattern valid op.regex ≡ success
  format : verify_format op.format ≡ success

verify_string-IsVerified :
    (valid : Bytes → Bool) (op : ValidateStringOp)
    → verify_string valid op ≡ success
    → IsVerified valid op
unfolding verify_string
verify_string-IsVerified valid op e =
    let lo = verify_min_length op.min_length in
    let hi = verify_max_length op.min_length op.max_length in
    let re = verify_pattern valid op.regex in
    let (p, e1) = both-succeed lo _ e in
    let (q, e2) = both-succeed hi _ e1 in
    let (r, t) = both-succeed re _ e2 in
    record {
      min = verify_min-success op.min_length p;
      max = verify_max-success op.min_length op.max_length q;
      regex = r;
      format = t;
    }

then-success : (r : LogicalResult) → (r >> success) ≡ r
then-success success = refl
then-success (failure e) = refl

-- The operation that is created for the meet of two verified string validators passes the verifier
-- but where its upper bound lies below its lower bound, and fails there.
pub verify_string-meet :
    (valid : Bytes → Bool) (a b : ValidateStringOp) (input : Value) {c : StringLattice}
    → verify_string valid a ≡ success
    → verify_string valid b ≡ success
    → string_meet (from_string_op a) (from_string_op b) ≡ some c
    → verify_string valid (to_string_op input c)
      ≡ reject_if (max_below c.min_length c.max_length) max_below_min
unfolding verify_string
verify_string-meet valid a b input {c} p q e =
    let va = verify_string-IsVerified valid a p in
    let vb = verify_string-IsVerified valid b q in
    let (_, _, is) = string_meet-eq-some (from_string_op a) (from_string_op b) e in
    let hi = tightest_upper a.max_length b.max_length in
    rw is (
      rw
        (
          verify_min-meet a.min_length b.min_length va.min vb.min,
          verify_max-lem (tightest_lower a.min_length b.min_length) hi
              (upper-not_negative a.max_length b.max_length va.max vb.max),
          first_of-pattern valid a.regex b.regex va.regex vb.regex,
          first_of-format a.format b.format va.format vb.format,
        )
        (then-success _))

module _ {D : Type 0} ⦃d : Double D⦄ where
  -- What a verified number validator is known to be.
  record IsProper (op : ValidateNumberOp D) : Type 0 where
    lower : (op.exclusive_minimum && not (is_some op.minimum)) ≡ false
    upper : (op.exclusive_maximum && not (is_some op.maximum)) ≡ false
    divisor : not_positive op.multiple_of ≡ false

  verify_number-IsProper : (op : ValidateNumberOp D) → verify_number op ≡ success → IsProper op
  unfolding verify_number
  verify_number-IsProper op e = record {
    lower = ground arith;
    upper = ground arith;
    divisor = ground arith;
  }

  if-alone :
      (k e f : Bool) (m n : Option D)
      → (e && not (is_some m)) ≡ false
      → (f && not (is_some n)) ≡ false
      → ((if k then e else f) && not (is_some (if k then m else n))) ≡ false
  if-alone true e f m n p q = p
  if-alone false e f m n p q = q

  merge_multiple-positive :
      (a b : Option D) {m : Option D}
      → merge_multiple a b ≡ some m
      → not_positive a ≡ false
      → not_positive b ≡ false
      → not_positive m ≡ false
  unfolding merge_multiple
  merge_multiple-positive a b e p q = ground arith

  -- The operation that is created for the meet of two verified number validators passes the
  -- verifier but where its maximum lies below its minimum, and fails there.
  pub verify_number-meet :
      (a b : ValidateNumberOp D) (input : Value) {c : NumberLattice D}
      → verify_number a ≡ success
      → verify_number b ≡ success
      → number_meet (from_number_op a) (from_number_op b) ≡ some c
      → verify_number (to_number_op input c)
        ≡ reject_if (exceeds c.minimum c.maximum) minimum_above_maximum
  unfolding verify_number
  verify_number-meet a b input {c} p q e =
      let pa = verify_number-IsProper a p in
      let pb = verify_number-IsProper b q in
      let la = from_number_op a in
      let lb = from_number_op b in
      let (m, merged, is) = number_meet-eq-some la lb e in
      rw is (
        rw
          (
            if-alone (keep_lower la lb) a.exclusive_minimum b.exclusive_minimum a.minimum b.minimum
                pa.lower pb.lower,
            if-alone (keep_upper la lb) a.exclusive_maximum b.exclusive_maximum a.maximum b.maximum
                pa.upper pb.upper,
            merge_multiple-positive a.multiple_of b.multiple_of merged pa.divisor pb.divisor,
          )
          (then-success _))
