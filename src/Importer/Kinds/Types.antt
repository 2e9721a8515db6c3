-- ===== src/Importer/Kinds/Types.antt =====
-- JSON values and the types they have.
use json_schema_mlir.Prelude.{Bool, true, false, ◌&&◌, ◌||◌, List, [], ◌∷◌}
use json_schema_mlir.Ast.{
  Located, JsonType, null_type, boolean_type, object_type, array_type, number_type, string_type,
  integer_type, SchemaNode, schema, Keywords, no_keywords, keyword_then, type_keyword,
  all_of_keyword, Branches, no_branches, branch_then,
}
use json_schema_mlir.Importer.Kinds.{
  InstanceKind, any_kind, string_value_kind, number_value_kind, integer_value_kind,
  object_value_kind,
}

-- The values of JSON, as far as types tell them apart.
pub data JsonValue : Type 0 where
  null_value boolean_value object_value array_value whole_value fraction_value string_value :
      JsonValue

-- What a JSON type contains: an integer is a number.
abbrev pub has_type : JsonType → JsonValue → Bool
has_type null_type null_value = true
has_type boolean_type boolean_value = true
has_type object_type object_value = true
has_type array_type array_value = true
has_type number_type whole_value = true
has_type number_type fraction_value = true
has_type integer_type whole_value = true
has_type string_type string_value = true
has_type _ _ = false

-- The instances of a kind.
abbrev pub is_instance : InstanceKind → JsonValue → Bool
is_instance any_kind v = true
is_instance string_value_kind v = has_type string_type v
is_instance number_value_kind v = has_type number_type v
is_instance integer_value_kind v = has_type integer_type v
is_instance object_value_kind v = has_type object_type v

-- A value has one of the types.
abbrev pub has_any : List (Located JsonType) → JsonValue → Bool
has_any [] v = false
has_any (t ∷ types) v = has_type t.value v || has_any types v

abbrev pub meets_type : {D : Type 0} → Keywords D → JsonValue → Bool
meets_type no_keywords v = true
meets_type (keyword_then (type_keyword i types) ks) v = has_any types v
meets_type (keyword_then _ ks) v = meets_type ks v

-- The types that a schema and the branches of its `allOf` assert; of a keyword that is repeated, the
-- first one counts.
unfoldable mutual
  pub meets_types : {D : Type 0} → SchemaNode D → JsonValue → Bool
  meets_types (schema i ks) v = meets_type ks v && meets_all_of ks v

  pub meets_all_of : {D : Type 0} → Keywords D → JsonValue → Bool
  meets_all_of no_keywords v = true
  meets_all_of (keyword_then (all_of_keyword i bs) ks) v = meets_branches bs v
  meets_all_of (keyword_then _ ks) v = meets_all_of ks v

  pub meets_branches : {D : Type 0} → Branches D → JsonValue → Bool
  meets_branches no_branches v = true
  meets_branches (branch_then b bs) v = meets_types b v && meets_branches bs v
