-- ===== src/Tests/Importing.antt =====
-- Witnesses for the importer.
use json_schema_mlir.Prelude.{true, ℕ, ◌≡◌, refl, false, ◌&&◌, some, [], ◌∷◌}
use json_schema_mlir.Lexer.Source.{SourceRange, start_pos}
use json_schema_mlir.Ast.{
  Keywords, KeywordNode, number_keyword, minimum_kind, exclusive_maximum_kind, KeywordInfo,
  KeywordKind, type_kind, all_of_kind, number_type, integer_type, SchemaNode, schema, no_keywords,
  keyword_then, type_keyword, all_of_keyword, no_branches, branch_then, JsonType,
}
use json_schema_mlir.Float.Halves.{Halves, whole, halves_double, Halves-IsOrdered}
use json_schema_mlir.Importer.Names.{escape_pointer_token}
use json_schema_mlir.Importer.Names.RoundTrip.{unescape, unescape-escape_pointer_token}
use json_schema_mlir.Importer.Bounds.{find_number, check_pair, check_number_bounds}
use json_schema_mlir.Importer.Bounds.Truth.{within_bounds, check_number_bounds_lem}
use json_schema_mlir.Importer.Kinds.{
  import_error, Reports, no_fact, own_kind, meet_types, meet_type_keyword, collect_kind,
  collect_all_of, collect_branches,
}
use json_schema_mlir.Importer.Kinds.Types.{fraction_value, is_instance, meets_types}
use json_schema_mlir.Importer.Kinds.Meaning.{collect_kind_lem}

unescape-escape_pointer_token_example :
    unescape (escape_pointer_token (b'a' ∷ b'/' ∷ b'~' ∷ b'1' ∷ []))
    ≡ some (b'a' ∷ b'/' ∷ b'~' ∷ b'1' ∷ [])
unescape-escape_pointer_token_example =
    unescape-escape_pointer_token (b'a' ∷ b'/' ∷ b'~' ∷ b'1' ∷ [])

abbrev nowhere : SourceRange
nowhere = record { begin = start_pos; end = start_pos }

abbrev keyword : KeywordKind → KeywordInfo
keyword kind = record {
  id = 0;
  range = nowhere;
  keyword_kind = kind;
  name = [];
  key_range = nowhere;
}

abbrev typed : JsonType → SchemaNode Halves
typed t =
    schema record { id = 0; range = nowhere }
      (keyword_then (type_keyword (keyword type_kind) (record { value = t; range = nowhere } ∷ []))
        no_keywords)

-- {"type":"number","allOf":[{"type":"integer"}]}
abbrev narrowed : SchemaNode Halves
narrowed =
    schema record { id = 0; range = nowhere }
      (keyword_then
        (type_keyword (keyword type_kind) (record { value = number_type; range = nowhere } ∷ []))
        (keyword_then
          (all_of_keyword (keyword all_of_kind) (branch_then (typed integer_type) no_branches))
          no_keywords))

abbrev quiet : Reports
quiet = record { failed = false; diags = [] }

narrowed_reports : (collect_kind narrowed (no_fact, quiet)).1.failed ≡ false
unfolding collect_kind collect_all_of collect_branches meet_type_keyword meet_types own_kind
narrowed_reports = refl

collect_kind_lem_example :
    is_instance (collect_kind narrowed (no_fact, quiet)).0.kind fraction_value
    ≡ (is_instance no_fact.kind fraction_value && meets_types narrowed fraction_value)
collect_kind_lem_example = collect_kind_lem narrowed no_fact quiet fraction_value narrowed_reports

abbrev bound : KeywordKind → ℕ → KeywordNode Halves
bound kind n = number_keyword (keyword kind) (whole n) []

-- {"minimum":3,"exclusiveMaximum":3}
abbrev empty_range : Keywords Halves
empty_range =
    keyword_then (bound minimum_kind 3) (keyword_then (bound exclusive_maximum_kind 3) no_keywords)

range_reported : (check_number_bounds empty_range quiet).failed ≡ true
unfolding check_number_bounds check_pair find_number import_error
range_reported = refl

check_number_bounds_lem_example : within_bounds empty_range (whole 3) ≡ false
check_number_bounds_lem_example =
    check_number_bounds_lem Halves-IsOrdered empty_range quiet (whole 3) refl range_reported
