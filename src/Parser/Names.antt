-- ===== src/Parser/Names.antt =====
-- The table of `parseKeyword`: the kinds of the keywords by name.
use json_schema_mlir.Prelude.{List, [], ◌∷◌, Bytes, bytes_eq, if◌then◌else◌}
use json_schema_mlir.Ast.{
  KeywordKind, type_kind, properties_kind, required_kind, all_of_kind, minimum_kind, maximum_kind,
  exclusive_minimum_kind, exclusive_maximum_kind, multiple_of_kind, min_length_kind,
  max_length_kind, pattern_kind, format_kind, annotation_kind, unknown_kind,
}

-- The `Case`s of the `StringSwitch`, in its order.
abbrev pub keyword_names : List (Bytes × KeywordKind)
keyword_names =
    ((b't' ∷ b'y' ∷ b'p' ∷ b'e' ∷ []), type_kind)
    ∷ ((b'p' ∷ b'r' ∷ b'o' ∷ b'p' ∷ b'e' ∷ b'r' ∷ b't' ∷ b'i' ∷ b'e' ∷ b's' ∷ []), properties_kind)
    ∷ ((b'r' ∷ b'e' ∷ b'q' ∷ b'u' ∷ b'i' ∷ b'r' ∷ b'e' ∷ b'd' ∷ []), required_kind)
    ∷ ((b'a' ∷ b'l' ∷ b'l' ∷ b'O' ∷ b'f' ∷ []), all_of_kind)
    ∷ ((b'm' ∷ b'i' ∷ b'n' ∷ b'i' ∷ b'm' ∷ b'u' ∷ b'm' ∷ []), minimum_kind)
    ∷ ((b'm' ∷ b'a' ∷ b'x' ∷ b'i' ∷ b'm' ∷ b'u' ∷ b'm' ∷ []), maximum_kind)
    ∷ (
      (b'e' ∷ b'x' ∷ b'c' ∷ b'l' ∷ b'u' ∷ b's' ∷ b'i' ∷ b'v' ∷ b'e' ∷ b'M' ∷ b'i' ∷ b'n' ∷ b'i'
          ∷ b'm' ∷ b'u' ∷ b'm' ∷ []),
      exclusive_minimum_kind,
    )
    ∷ (
      (b'e' ∷ b'x' ∷ b'c' ∷ b'l' ∷ b'u' ∷ b's' ∷ b'i' ∷ b'v' ∷ b'e' ∷ b'M' ∷ b'a' ∷ b'x' ∷ b'i'
          ∷ b'm' ∷ b'u' ∷ b'm' ∷ []),
      exclusive_maximum_kind,
    )
    ∷ ((b'm' ∷ b'u' ∷ b'l' ∷ b't' ∷ b'i' ∷ b'p' ∷ b'l' ∷ b'e' ∷ b'O' ∷ b'f' ∷ []), multiple_of_kind)
    ∷ ((b'm' ∷ b'i' ∷ b'n' ∷ b'L' ∷ b'e' ∷ b'n' ∷ b'g' ∷ b't' ∷ b'h' ∷ []), min_length_kind)
    ∷ ((b'm' ∷ b'a' ∷ b'x' ∷ b'L' ∷ b'e' ∷ b'n' ∷ b'g' ∷ b't' ∷ b'h' ∷ []), max_length_kind)
    ∷ ((b'p' ∷ b'a' ∷ b't' ∷ b't' ∷ b'e' ∷ b'r' ∷ b'n' ∷ []), pattern_kind)
    ∷ ((b'f' ∷ b'o' ∷ b'r' ∷ b'm' ∷ b'a' ∷ b't' ∷ []), format_kind)
    ∷ ((b'$' ∷ b's' ∷ b'c' ∷ b'h' ∷ b'e' ∷ b'm' ∷ b'a' ∷ []), annotation_kind)
    ∷ ((b'$' ∷ b'i' ∷ b'd' ∷ []), annotation_kind)
    ∷ ((b'$' ∷ b'c' ∷ b'o' ∷ b'm' ∷ b'm' ∷ b'e' ∷ b'n' ∷ b't' ∷ []), annotation_kind)
    ∷ ((b't' ∷ b'i' ∷ b't' ∷ b'l' ∷ b'e' ∷ []), annotation_kind)
    ∷ (
      (b'd' ∷ b'e' ∷ b's' ∷ b'c' ∷ b'r' ∷ b'i' ∷ b'p' ∷ b't' ∷ b'i' ∷ b'o' ∷ b'n' ∷ []),
      annotation_kind,
    )
    ∷ ((b'd' ∷ b'e' ∷ b'f' ∷ b'a' ∷ b'u' ∷ b'l' ∷ b't' ∷ []), annotation_kind)
    ∷ ((b'e' ∷ b'x' ∷ b'a' ∷ b'm' ∷ b'p' ∷ b'l' ∷ b'e' ∷ b's' ∷ []), annotation_kind)
    ∷ ((b'd' ∷ b'e' ∷ b'p' ∷ b'r' ∷ b'e' ∷ b'c' ∷ b'a' ∷ b't' ∷ b'e' ∷ b'd' ∷ []), annotation_kind)
    ∷ ((b'r' ∷ b'e' ∷ b'a' ∷ b'd' ∷ b'O' ∷ b'n' ∷ b'l' ∷ b'y' ∷ []), annotation_kind)
    ∷ ((b'w' ∷ b'r' ∷ b'i' ∷ b't' ∷ b'e' ∷ b'O' ∷ b'n' ∷ b'l' ∷ b'y' ∷ []), annotation_kind)
    ∷ []

-- The first case with the name, or the default.
unfoldable pub kind_in : List (Bytes × KeywordKind) → Bytes → KeywordKind
kind_in [] name = unknown_kind
kind_in ((n, kind) ∷ cases) name =
    let rest = kind_in cases name in if bytes_eq name n then kind else rest

abbrev pub keyword_kind_of : Bytes → KeywordKind
keyword_kind_of name = kind_in keyword_names name
