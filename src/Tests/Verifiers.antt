-- ===== src/Tests/Verifiers.antt =====
-- Witnesses for the verifiers.
use json_schema_mlir.Prelude.{◌≡◌, ◌↔◌, some, [], ◌∷◌, Bytes, true}
use json_schema_mlir.Ops.{StructOp}
use json_schema_mlir.Ops.Verify.{success, verify_struct}
use json_schema_mlir.Ops.Verify.Names.{IsWellFormed, verify_struct_lem}

abbrev name : Bytes
name = b'i' ∷ b'd' ∷ []

abbrev struct_op : StructOp
struct_op = record {
  input = 0;
  field_results = 1 ∷ 2 ∷ [];
  type_name = b'p' ∷ [];
  field_names = name ∷ (b'a' ∷ []) ∷ [];
  required_fields = some (name ∷ []);
  additional_properties = true;
}

verify_struct_lem_example : (verify_struct struct_op ≡ success) ↔ IsWellFormed struct_op
verify_struct_lem_example = verify_struct_lem struct_op
