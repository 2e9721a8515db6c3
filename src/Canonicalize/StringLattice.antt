-- ===== src/Canonicalize/StringLattice.antt =====
-- `struct StringLattice`: the constraints of a `schema.validate_string`.
pub mod Meet
pub mod Order
use json_schema_mlir.Prelude.{
  ℤ, ltb_ℤ, eqb_ℤ, Bool, true, false, not, ◌&&◌, ◌||◌, Option, none, some, Bytes, bytes_eq,
  if◌then◌else◌,
}
use json_schema_mlir.Ops.{Value, ValidateStringOp}
use json_schema_mlir.Runtime.{Runtime}
use json_schema_mlir.Float.{Double}
use json_schema_mlir.Semantics.{accepts_string_by}
use json_schema_mlir.Canonicalize.Bounds.{
  tightest_lower, tightest_upper, option_eq, attr_eq, conflict, first_of,
}

pub record StringLattice : Type 0 where
  pub min_length : Option ℤ
  pub max_length : Option ℤ
  pub regex : Option Bytes
  pub format : Option Bytes

abbrev pub from_string_op : ValidateStringOp → StringLattice
from_string_op op = record {
  min_length = op.min_length;
  max_length = op.max_length;
  regex = op.regex;
  format = op.format;
}

-- The operation that `materialize` creates.
abbrev pub to_string_op : Value → StringLattice → ValidateStringOp
to_string_op v l = record {
  input = v;
  min_length = l.min_length;
  max_length = l.max_length;
  regex = l.regex;
  format = l.format;
}

unfoldable pub string_eq : StringLattice → StringLattice → Bool
string_eq a b =
    option_eq eqb_ℤ a.min_length b.min_length
    && option_eq eqb_ℤ a.max_length b.max_length
    && attr_eq a.regex b.regex
    && attr_eq a.format b.format

-- `rhs.minLength && (!minLength || *minLength < *rhs.minLength)`.
abbrev pub weaker_min : Option ℤ → Option ℤ → Bool
weaker_min a none = false
weaker_min none (some b) = true
weaker_min (some a) (some b) = ltb_ℤ a b

abbrev pub weaker_max : Option ℤ → Option ℤ → Bool
weaker_max a none = false
weaker_max none (some b) = true
weaker_max (some a) (some b) = ltb_ℤ b a

-- `rhs.pattern && pattern != rhs.pattern`.
abbrev pub other_text : Option Bytes → Option Bytes → Bool
other_text a none = false
other_text a (some b) = not (attr_eq a (some b))

unfoldable pub string_subsumes : StringLattice → StringLattice → Bool
string_subsumes a b =
    if weaker_min a.min_length b.min_length
    then false
    else if weaker_max a.max_length b.max_length
    then false
    else if other_text a.regex b.regex
    then false
    else if other_text a.format b.format
    then false
    else true

unfoldable pub string_meet : StringLattice → StringLattice → Option StringLattice
string_meet a b =
    if conflict a.regex b.regex
    then none
    else if conflict a.format b.format
    then none
    else some (record {
      min_length = tightest_lower a.min_length b.min_length;
      max_length = tightest_upper a.max_length b.max_length;
      regex = first_of a.regex b.regex;
      format = first_of a.format b.format;
    })

unfoldable pub accepts_string : {H D : Type 0} → Runtime H D → StringLattice → H → Bool
unfolding accepts_string_by
accepts_string rt l = accepts_string_by rt l.min_length l.max_length l.regex l.format
