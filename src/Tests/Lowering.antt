-- ===== src/Tests/Lowering.antt =====
-- Witnesses for the normalization patterns, the string pool and the lowering.
use json_schema_mlir.Prelude.{
  zero, suc, arith, ◌≡◌, refl, ◌&&◌, pos, true, false, none, some, [], ◌∷◌, Bytes, get_elem?,
}
use json_schema_mlir.Float.Halves.{Halves, whole, halves_double, Halves-RoundsWhole}
use json_schema_mlir.Ops.{ValidateStringOp, ValidateNumberOp, StructOp}
use json_schema_mlir.Canonicalize.StringLattice.{accepts_string, from_string_op}
use json_schema_mlir.Canonicalize.NumberLattice.{accepts_number, from_number_op}
use json_schema_mlir.Canonicalize.Normalize.{
  normalize_string, normalize_number, accepts_string-normalize_string,
  accepts_number-normalize_number,
}
use json_schema_mlir.Lower.Pool.{intern, insert, Extends, intern_lem, intern_again}
use json_schema_mlir.Lower.Expr.{eval}
use json_schema_mlir.Lower.Number.{lower_number, eval-lower_number}
use json_schema_mlir.Lower.String.{lower_string, eval-lower_string}
use json_schema_mlir.Lower.Struct.{add_required, lower_struct}
use json_schema_mlir.Lower.Struct.Documented.{accepts_struct, missing_hold, eval-lower_struct}
use json_schema_mlir.Tests.Documents.{
  Doc, number_doc, text_doc, object_doc, documents, documents-IsRuntime, always,
}

abbrev word : Doc
word = text_doc (b'w' ∷ b'o' ∷ [])

abbrev pattern : Bytes
pattern = b'w' ∷ b'o' ∷ []

abbrev string_op : ValidateStringOp
string_op = record {
  input = 0;
  min_length = some (pos 0);
  max_length = some (pos 5);
  regex = some pattern;
  format = none;
}

abbrev string_op_normal : ValidateStringOp
string_op_normal = record string_op { min_length = none }

normalize_string_op : normalize_string string_op ≡ some string_op_normal
unfolding normalize_string
normalize_string_op = refl

accepts_string-normalize_string_example :
    accepts_string documents (from_string_op string_op_normal) word
    ≡ accepts_string documents (from_string_op string_op) word
accepts_string-normalize_string_example =
    accepts_string-normalize_string documents documents-IsRuntime string_op word normalize_string_op

abbrev number_op : ValidateNumberOp Halves
number_op = record {
  input = 0;
  minimum = some (whole 1);
  maximum = none;
  multiple_of = some (whole 1);
  exclusive_minimum = true;
  exclusive_maximum = false;
  integral = true;
}

abbrev number_op_normal : ValidateNumberOp Halves
number_op_normal = record number_op { multiple_of = none }

normalize_number_op : normalize_number number_op ≡ some number_op_normal
unfolding normalize_number
normalize_number_op = refl

accepts_number-normalize_number_example :
    accepts_number documents (from_number_op number_op_normal) (number_doc (whole 4))
    ≡ accepts_number documents (from_number_op number_op) (number_doc (whole 4))
accepts_number-normalize_number_example =
    accepts_number-normalize_number Halves-RoundsWhole documents number_op (number_doc (whole 4))
      normalize_number_op

eval-lower_number_example :
    eval documents (always word) [] (lower_number number_op)
    ≡ some (accepts_number documents (from_number_op number_op) word)
eval-lower_number_example =
    eval-lower_number documents documents-IsRuntime (always word) [] number_op

string_op-pool : (lower_string {D = Halves} string_op []).1 ≡ pattern ∷ []
unfolding lower_string intern insert
string_op-pool = refl

string_op-Extends : Extends (lower_string {D = Halves} string_op []).1 (pattern ∷ [])
string_op-Extends i s e = rw string_op-pool at e

eval-lower_string_example :
    eval documents (always word) (pattern ∷ []) (lower_string string_op []).0
    ≡ some (accepts_string documents (from_string_op string_op) word)
eval-lower_string_example =
    eval-lower_string documents documents-IsRuntime (always word) (pattern ∷ []) string_op []
      string_op-Extends

abbrev name : Bytes
name = b'i' ∷ b'd' ∷ []

abbrev struct_op : StructOp
struct_op = record {
  input = 0;
  field_results = 1 ∷ [];
  type_name = b'p' ∷ [];
  field_names = name ∷ [];
  required_fields = some (name ∷ []);
  additional_properties = true;
}

abbrev object : Doc
object = object_doc (name ∷ [])

struct_op-pool : (lower_struct {D = Halves} struct_op []).1 ≡ name ∷ []
unfolding lower_struct add_required intern insert
struct_op-pool = refl

struct_op-Extends : Extends (lower_struct {D = Halves} struct_op []).1 (name ∷ [])
struct_op-Extends i s e = rw struct_op-pool at e

eval-lower_struct_example :
    eval documents (always object) (name ∷ []) (lower_struct struct_op []).0
    ≡ some (
        accepts_struct documents struct_op (always object)
        && missing_hold documents struct_op (always object))
eval-lower_struct_example =
    eval-lower_struct documents documents-IsRuntime (always object) (name ∷ []) struct_op []
      struct_op-Extends refl

intern_lem_example :
    (get_elem? (intern (name ∷ []) pattern).1 (intern (name ∷ []) pattern).0 ≡ some pattern)
    × Extends (name ∷ []) (intern (name ∷ []) pattern).1
intern_lem_example = intern_lem (name ∷ []) pattern

-- `id` is interned first, and a pattern behind it.
name_then_pattern : Extends (intern [] name).1 (name ∷ pattern ∷ [])
unfolding intern insert
name_then_pattern zero s e = e
name_then_pattern (suc i) s e = absurd (ground arith)

intern_again_example : intern (name ∷ pattern ∷ []) name ≡ ((intern [] name).0, name ∷ pattern ∷ [])
intern_again_example = intern_again [] (name ∷ pattern ∷ []) name name_then_pattern
