-- ===== src/Parser/Schemas.antt =====
-- `parsePropertiesKeyword`, `parseAllOfKeyword`, `parseKeyword`, `parseSchema` and `parseDocument`.
-- A schema one level deeper is a parameter of the keywords.
use json_schema_mlir.Prelude.{
  ℕ, zero, suc, Bool, not, ◌||◌, Option, none, some, List, [], ◌∷◌, if◌then◌else◌,
}
use json_schema_mlir.Float.{Double}
use json_schema_mlir.Lexer.Source.{SourcePos}
use json_schema_mlir.Lexer.Token.{l_brace, l_square, true_word, false_word, eof, Token}
use json_schema_mlir.Ast.{
  KeywordKind, type_kind, properties_kind, required_kind, all_of_kind, minimum_kind, maximum_kind,
  exclusive_minimum_kind, exclusive_maximum_kind, multiple_of_kind, min_length_kind,
  max_length_kind, pattern_kind, format_kind, annotation_kind, unknown_kind, SchemaInfo,
  PropertyInfo, SchemaNode, schema, Keywords, no_keywords, KeywordNode, properties_keyword,
  all_of_keyword, Properties, no_properties, property_then, PropertyNode, property_only, property,
  Branches, no_branches, branch_then, append_keyword,
}
use json_schema_mlir.Parser.State.{
  State, ParseDiagnostic, initial, tok, is, peek_is_close, consume, report, error_at_token, bump_id,
  bad_value, empty_branches, schema_too_deep, boolean_schema, expected_schema, expected_document,
  trailing_content,
}
use json_schema_mlir.Parser.Loops.{Parse, and_then, parse_array, parse_object, skip_nested}
use json_schema_mlir.Parser.Values.{
  max_depth, skip_value, nothing, bad_value_at, Reading, Seen, unless_seen,
}
use json_schema_mlir.Parser.Names.{keyword_kind_of}
use json_schema_mlir.Parser.Keywords.{
  new_info, set_end, parse_type_keyword, parse_required_keyword, parse_string_keyword,
  parse_annotation_keyword, parse_unknown_keyword, parse_number_keyword, parse_length_keyword,
}

-- `push_back`.
unfoldable pub append_property : {D : Type 0} → Properties D → PropertyNode D → Properties D
append_property no_properties p = property_then p no_properties
append_property (property_then q ps) p = property_then q (append_property ps p)

unfoldable pub append_branch : {D : Type 0} → Branches D → SchemaNode D → Branches D
append_branch no_branches b = branch_then b no_branches
append_branch (branch_then c bs) b = branch_then c (append_branch bs b)

abbrev pub mark : Token → Seen → Seen
mark key seen = (key.value, key.range.begin) ∷ seen

abbrev pub property_info : Token → ℕ → SourcePos → PropertyInfo
property_info name id end = record {
  id = id;
  range = record { begin = name.range.begin; end = end };
  name = name.value;
  name_range = name.range;
}

-- A schema parser.
abbrev pub Sub : Type 0 → Type 0
Sub D = Parse (Option (SchemaNode D))

module _ {D : Type 0} where
  -- A property, whose schema may be missing.
  abbrev pub property_node : PropertyInfo → Option (SchemaNode D) → PropertyNode D
  property_node i none = property_only i
  property_node i (some s) = property i s

  abbrev pub new_property :
      Token → Seen → Properties D → ℕ → Option (SchemaNode D) → Parse (Seen × Properties D)
  new_property name seen ps id o t =
      some (
        (mark name seen, append_property ps (property_node (property_info name id t.last_end) o)),
        t,
      )

  -- The member function of `parsePropertiesKeyword`.
  unfoldable pub property_member :
      Sub D → ℕ → Token → Seen × Properties D → Parse (Seen × Properties D)
  property_member sub levels name (seen, ps) s =
      unless_seen seen name levels (seen, ps)
        (λ s. and_then (sub (bump_id s)) (new_property name seen ps s.next_id)) s

  unfoldable pub parse_properties_keyword : Sub D → Token → ℕ → Parse (Option (KeywordNode D))
  parse_properties_keyword sub key levels s =
      if not (is l_brace (tok s))
      then bad_value_at (bad_value key.value) levels s
      else and_then (parse_object (property_member sub levels) ([], no_properties) (bump_id s))
          (λ l t. some (some (properties_keyword (new_info properties_kind key s) l.1), t))

  abbrev pub push_branch : Branches D → Option (SchemaNode D) → Parse (Branches D)
  push_branch bs none s = some (bs, s)
  push_branch bs (some b) s = some (append_branch bs b, s)

  abbrev pub branch_element : Sub D → Branches D → Parse (Branches D)
  branch_element sub bs s = and_then (sub s) (push_branch bs)

  unfoldable pub parse_all_of_keyword : Sub D → Token → ℕ → Parse (Option (KeywordNode D))
  parse_all_of_keyword sub key levels s =
      if not (is l_square (tok s))
      then bad_value_at (bad_value key.value) levels s
      else and_then (parse_array (branch_element sub) no_branches (bump_id s)) (λ bs t. some (
        some (all_of_keyword (new_info all_of_kind key s) bs),
        if peek_is_close s then report (tok s).range.begin empty_branches t else t,
      ))

  abbrev pub new_keyword :
      Token → Seen → Keywords D → Option (KeywordNode D) → Parse (Seen × Keywords D)
  new_keyword key seen ks none t = some ((mark key seen, ks), t)
  new_keyword key seen ks (some k) t =
      some ((mark key seen, append_keyword ks (set_end t.last_end k)), t)

abbrev pub schema_info : ℕ → SourcePos → SourcePos → SchemaInfo
schema_info id begin end = record { id = id; range = record { begin = begin; end = end } }

module _ {D : Type 0} ⦃d : Double D⦄ (r : Reading D) where
  -- The `switch` of `parseKeyword`.
  unfoldable pub parse_kind : Sub D → KeywordKind → Token → ℕ → Parse (Option (KeywordNode D))
  parse_kind sub type_kind key levels s = parse_type_keyword key levels s
  parse_kind sub properties_kind key levels s = parse_properties_keyword sub key levels s
  parse_kind sub required_kind key levels s = parse_required_keyword key levels s
  parse_kind sub all_of_kind key levels s = parse_all_of_keyword sub key levels s
  parse_kind sub minimum_kind key levels s = parse_number_keyword r minimum_kind key levels s
  parse_kind sub maximum_kind key levels s = parse_number_keyword r maximum_kind key levels s
  parse_kind sub exclusive_minimum_kind key levels s =
      parse_number_keyword r exclusive_minimum_kind key levels s
  parse_kind sub exclusive_maximum_kind key levels s =
      parse_number_keyword r exclusive_maximum_kind key levels s
  parse_kind sub multiple_of_kind key levels s =
      parse_number_keyword r multiple_of_kind key levels s
  parse_kind sub min_length_kind key levels s = parse_length_keyword r min_length_kind key levels s
  parse_kind sub max_length_kind key levels s = parse_length_keyword r max_length_kind key levels s
  parse_kind sub pattern_kind key levels s = parse_string_keyword pattern_kind key levels s
  parse_kind sub format_kind key levels s = parse_string_keyword format_kind key levels s
  parse_kind sub annotation_kind key levels s = parse_annotation_keyword key levels s
  parse_kind sub unknown_kind key levels s = parse_unknown_keyword key levels s

  abbrev pub parse_keyword : Sub D → Token → ℕ → Parse (Option (KeywordNode D))
  parse_keyword sub key levels s = parse_kind sub (keyword_kind_of key.value) key levels s

  -- The member function of `parseSchema`.
  unfoldable pub keyword_member : Sub D → ℕ → Token → Seen × Keywords D → Parse (Seen × Keywords D)
  keyword_member sub levels key (seen, ks) s =
      unless_seen seen key levels (seen, ks)
        (λ s. and_then (parse_keyword sub key levels s) (new_keyword key seen ks)) s

  -- `parseSchema` where the nesting limit is not reached.
  unfoldable pub parse_schema_in : Sub D → ℕ → Sub D
  parse_schema_in sub levels s =
      if is true_word (tok s) || is false_word (tok s)
      then some (none, consume (error_at_token boolean_schema s))
      else if not (is l_brace (tok s))
      then nothing (skip_value levels (error_at_token expected_schema s))
      else and_then (parse_object (keyword_member sub levels) ([], no_keywords) (bump_id s)) (λ l t.
        some (some (schema (schema_info s.next_id (tok s).range.begin t.last_end) l.1), t))

  unfoldable pub parse_schema : ℕ → Sub D
  parse_schema zero s = some (none, skip_nested (error_at_token schema_too_deep s))
  parse_schema (suc levels) s = parse_schema_in (parse_schema levels) (suc levels) s

-- The result, and the diagnostics.
pub record ParsedSchema (D : Type 0) : Type 0 where
  pub root : Option (SchemaNode D)
  pub num_nodes : ℕ
  pub failed : Bool
  pub diags : List ParseDiagnostic

abbrev pub parsed : {D : Type 0} → Option (SchemaNode D) → State → ParsedSchema D
parsed o s = record { root = o; num_nodes = s.next_id; failed = s.failed; diags = s.diags }

abbrev pub finished :
    {D : Type 0} → Option (Option (SchemaNode D) × State) → Option (ParsedSchema D)
finished none = none
finished (some (o, s)) = some (parsed o s)

abbrev pub at_end : State → State
at_end s = if not (is eof (tok s)) then error_at_token trailing_content s else s

module _ {D : Type 0} ⦃d : Double D⦄ (r : Reading D) where
  unfoldable pub run_document : Parse (Option (SchemaNode D))
  run_document s =
      if is eof (tok s)
      then some (none, report (tok s).range.begin expected_document s)
      else and_then (parse_schema r max_depth s) (λ o t. some (o, at_end t))

  unfoldable pub parse_document : List Token → Option (ParsedSchema D)
  parse_document tokens = finished (run_document (initial tokens))
