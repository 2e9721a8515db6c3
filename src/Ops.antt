-- ===== src/Ops.antt =====
-- The operations of the `schema` dialect, include/Schema/SchemaOps.td and lib/Schema/SchemaOps.cpp,
-- as data. An absent optional attribute is `none`, and a unit attribute is a Boolean.
pub mod Verify
use json_schema_mlir.Prelude.{ℕ, ℤ, Bool, Option, List, Bytes}

-- An SSA value, by its number.
abbrev pub Value : Type 0
Value = ℕ

pub record ValidateStringOp : Type 0 where
  pub input : Value
  pub min_length : Option ℤ
  pub max_length : Option ℤ
  pub regex : Option Bytes
  pub format : Option Bytes

pub record ValidateNumberOp (D : Type 0) : Type 0 where
  pub input : Value
  pub minimum : Option D
  pub maximum : Option D
  pub multiple_of : Option D
  pub exclusive_minimum : Bool
  pub exclusive_maximum : Bool
  pub integral : Bool

-- `StrArrayAttr` holds string attributes alone, so the names are byte strings.
pub record StructOp : Type 0 where
  pub input : Value
  pub field_results : List Value
  pub type_name : Bytes
  pub field_names : List Bytes
  pub required_fields : Option (List Bytes)
  pub additional_properties : Bool
