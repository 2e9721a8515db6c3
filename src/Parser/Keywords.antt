-- ===== src/Parser/Keywords.antt =====
-- The keyword parsers with no schema inside. A keyword node is numbered as the source constructs it;
-- the name of each is that of its key. The levels are those left at the depth of the keyword.
use json_schema_mlir.Prelude.{
  ℕ, ◌-◌, Bool, false, not, ◌||◌, ◌==◌, Option, none, some, List, [], ◌∷◌, ◌++◌, Bytes, bytes_eq,
  if◌then◌else◌,
}
use json_schema_mlir.Float.{Double}
use json_schema_mlir.Lexer.Source.{SourcePos}
use json_schema_mlir.Lexer.Token.{l_square, string, number, Token}
use json_schema_mlir.Ast.{
  Located, JsonType, null_type, boolean_type, object_type, array_type, number_type, string_type,
  integer_type, KeywordKind, type_kind, required_kind, annotation_kind, unknown_kind, KeywordInfo,
  KeywordNode, type_keyword, properties_keyword, required_keyword, all_of_keyword, number_keyword,
  length_keyword, string_keyword, annotation_keyword, unknown_keyword,
}
use json_schema_mlir.Ast.Names.{symbolize_json_type}
use json_schema_mlir.Parser.State.{
  State, tok, is, peek_is_close, consume, report, bump_id, bad_value, unknown_type, repeated_type,
  repeated_required, empty_types,
}
use json_schema_mlir.Parser.Loops.{Parse, and_then, parse_array}
use json_schema_mlir.Parser.Values.{Done, skip_value, bad_value_at, Reading, parse_number}

-- The base of a node whose number is the next one.
abbrev pub new_info : KeywordKind → Token → State → KeywordInfo
new_info kind key s = record {
  id = s.next_id;
  range = record { begin = key.range.begin; end = key.range.begin };
  keyword_kind = kind;
  name = key.value;
  key_range = key.range;
}

abbrev end_info : SourcePos → KeywordInfo → KeywordInfo
end_info end i = record i { range = record { begin = i.range.begin; end = end } }

-- `setEnd`.
unfoldable pub set_end : {D : Type 0} → SourcePos → KeywordNode D → KeywordNode D
set_end e (type_keyword i types) = type_keyword (end_info e i) types
set_end e (properties_keyword i ps) = properties_keyword (end_info e i) ps
set_end e (required_keyword i names) = required_keyword (end_info e i) names
set_end e (all_of_keyword i bs) = all_of_keyword (end_info e i) bs
set_end e (number_keyword i x spelling) = number_keyword (end_info e i) x spelling
set_end e (length_keyword i n) = length_keyword (end_info e i) n
set_end e (string_keyword i text) = string_keyword (end_info e i) text
set_end e (annotation_keyword i text) = annotation_keyword (end_info e i) text
set_end e (unknown_keyword i) = unknown_keyword (end_info e i)

abbrev pub Types : Type 0
Types = List (Located JsonType)

abbrev pub type_number : JsonType → ℕ
type_number null_type = 0
type_number boolean_type = 1
type_number object_type = 2
type_number array_type = 3
type_number number_type = 4
type_number string_type = 5
type_number integer_type = 6

unfoldable pub lists_type : Types → JsonType → Bool
lists_type [] type = false
lists_type (seen ∷ types) type = type_number seen.value == type_number type || lists_type types type

abbrev pub add_known : Types → Token → Option JsonType → Parse Types
add_known types name none s = some (types, report name.range.begin (unknown_type name.value) s)
add_known types name (some type) s =
    if lists_type types type
    then some (types, report name.range.begin (repeated_type name.value) s)
    else some (types ++ (record { value = type; range = name.range } ∷ []), s)

-- `addType`.
unfoldable pub add_type : Types → Parse Types
add_type types s = add_known types (tok s) (symbolize_json_type (tok s).value) (consume s)

-- A value of the wrong shape among others: what was read so far stays.
abbrev pub bad_element : {L : Type 0} → L → Token → ℕ → Parse L
bad_element l key levels s =
    and_then (bad_value_at {A = Done} (bad_value key.value) levels s) (λ o t. some (l, t))

abbrev pub type_element : Token → ℕ → Types → Parse Types
type_element key levels types s =
    if is string (tok s) then add_type types s else bad_element types key levels s

abbrev pub Names : Type 0
Names = List (Located Bytes)

unfoldable pub lists_name : Names → Bytes → Bool
lists_name [] name = false
lists_name (seen ∷ names) name = bytes_eq seen.value name || lists_name names name

unfoldable pub add_name : Names → Token → Parse Names
add_name names name s =
    if lists_name names name.value
    then some (names, report name.range.begin (repeated_required name.value) s)
    else some (names ++ (record { value = name.value; range = name.range } ∷ []), s)

abbrev pub required_element : Token → ℕ → Names → Parse Names
required_element key levels names s =
    if not (is string (tok s))
    then bad_element names key levels s
    else add_name names (tok s) (consume s)

module _ {D : Type 0} where
  unfoldable pub parse_type_keyword : Token → ℕ → Parse (Option (KeywordNode D))
  parse_type_keyword key levels s0 =
      let s = bump_id s0 in
      let node = new_info type_kind key s0 in
      if is string (tok s)
      then and_then (add_type [] s) (λ types t. some (some (type_keyword node types), t))
      else if is l_square (tok s)
      then and_then (parse_array (type_element key (levels - 1)) [] s) (λ types t. some (
        some (type_keyword node types),
        if peek_is_close s then report (tok s).range.begin empty_types t else t,
      ))
      else bad_value_at (bad_value key.value) levels s

  unfoldable pub parse_required_keyword : Token → ℕ → Parse (Option (KeywordNode D))
  parse_required_keyword key levels s =
      if not (is l_square (tok s))
      then bad_value_at (bad_value key.value) levels s
      else and_then (parse_array (required_element key (levels - 1)) [] (bump_id s))
          (λ names t. some (some (required_keyword (new_info required_kind key s) names), t))

  -- `pattern` and `format`.
  unfoldable pub parse_string_keyword : KeywordKind → Token → ℕ → Parse (Option (KeywordNode D))
  parse_string_keyword kind key levels s =
      if not (is string (tok s))
      then bad_value_at (bad_value key.value) levels (bump_id s)
      else some (some (string_keyword (new_info kind key s) (tok s).value), consume (bump_id s))

  unfoldable pub parse_annotation_keyword : Token → ℕ → Parse (Option (KeywordNode D))
  parse_annotation_keyword key levels s =
      let node = new_info annotation_kind key s in
      if is string (tok s)
      then some (some (annotation_keyword node (some (tok s).value)), consume (bump_id s))
      else and_then (skip_value levels (bump_id s))
          (λ u t. some (some (annotation_keyword node none), t))

  unfoldable pub parse_unknown_keyword : Token → ℕ → Parse (Option (KeywordNode D))
  parse_unknown_keyword key levels s =
      and_then (skip_value levels (bump_id s))
        (λ u t. some (some (unknown_keyword (new_info unknown_kind key s)), t))

module _ {D : Type 0} ⦃d : Double D⦄ (r : Reading D) where
  abbrev pub number_node : KeywordInfo → Option (D × Bytes) → Parse (Option (KeywordNode D))
  number_node node none s = some (none, s)
  number_node node (some (x, spelling)) s = some (some (number_keyword node x spelling), s)

  unfoldable pub parse_number_keyword : KeywordKind → Token → ℕ → Parse (Option (KeywordNode D))
  parse_number_keyword kind key levels s =
      and_then (parse_number r key levels (bump_id s)) (number_node (new_info kind key s))

  -- Negative, not whole, or too large to be exact.
  unfoldable pub is_bad_length : D → Bool
  is_bad_length x = d.lt x d.nought || (not (d.eq x (d.trunc x)) || d.lt r.max_exact x)

  abbrev pub length_node :
      KeywordInfo → SourcePos → Option (D × Bytes) → Parse (Option (KeywordNode D))
  length_node node at none s = some (none, s)
  length_node node at (some (x, spelling)) s =
      if is_bad_length x
      then some (none, report at (bad_value node.name) s)
      else some (some (length_keyword node (r.to_int64 x)), s)

  -- `minLength` and `maxLength`.
  unfoldable pub parse_length_keyword : KeywordKind → Token → ℕ → Parse (Option (KeywordNode D))
  parse_length_keyword kind key levels s0 =
      let s = bump_id s0 in
      let node = new_info kind key s0 in
      if not (is number (tok s))
      then bad_value_at (bad_value key.value) levels s
      else and_then (parse_number r key levels s) (length_node node (tok s).range.begin)
