-- ===== src/Tests/Trees.antt =====
-- Witnesses for the schema trees.
use json_schema_mlir.Prelude.{ℕ, ◌≡◌, ◌≤◌, arith, some, [], ◌∷◌, ◌++◌, Bytes, length}
use json_schema_mlir.Lexer.Source.{SourceRange, start_pos}
use json_schema_mlir.Ast.{
  SchemaNode, schema, no_keywords, keyword_then, KeywordInfo, KeywordKind, PropertyInfo,
  properties_kind, required_kind, properties_keyword, required_keyword, no_properties,
  property_then, property,
}
use json_schema_mlir.Ast.Walk.{
  Node, schema_node, walk, preorder, walk_lem, schema_nodes, keywords_nodes, keyword_nodes,
  properties_nodes, property_nodes, branches_nodes,
}
use json_schema_mlir.Ast.Quote.{print_quoted}
use json_schema_mlir.Ast.Quote.RoundTrip.{lex_string-print_quoted}
use json_schema_mlir.Lexer.Token.{Lexed, string}
use json_schema_mlir.Lexer.Strings.{lex_string}
use json_schema_mlir.Lexer.Moves.{at_bytes}
use json_schema_mlir.Tests.Classes.{ascii, ascii-AreChars}
use json_schema_mlir.Float.Halves.{Halves}

abbrev nowhere : SourceRange
nowhere = record { begin = start_pos; end = start_pos }

abbrev name : Bytes
name = b'i' ∷ b'd' ∷ []

abbrev keyword : ℕ → KeywordKind → KeywordInfo
keyword n kind = record {
  id = n;
  range = nowhere;
  keyword_kind = kind;
  name = [];
  key_range = nowhere;
}

abbrev property_info : PropertyInfo
property_info = record { id = 2; range = nowhere; name = name; name_range = nowhere }

abbrev leaf : SchemaNode Halves
leaf = schema (record { id = 3; range = nowhere }) no_keywords

-- A schema with one property, which is required.
abbrev tree : Node Halves
tree = schema_node (
    schema (record { id = 0; range = nowhere })
      (keyword_then
        (properties_keyword (keyword 1 properties_kind)
          (property_then (property property_info leaf) no_properties))
        (keyword_then
          (required_keyword (keyword 4 required_kind)
            (record { value = name; range = nowhere } ∷ []))
          no_keywords)))

tree-small : length (preorder tree) ≤ 5
unfolding schema_nodes keywords_nodes keyword_nodes properties_nodes property_nodes branches_nodes
tree-small = omega arith

walk_lem_example : walk 5 tree ≡ some (preorder tree)
walk_lem_example = walk_lem tree 5 tree-small

-- A quote, a backslash, a newline, a control character and a letter.
abbrev awkward : Bytes
awkward = b'"' ∷ b'\\' ∷ b'\n' ∷ 1 ∷ b'a' ∷ []

lex_string-print_quoted_example :
    (x : Lexed) × (lex_string ascii [] (at_bytes (print_quoted awkward ++ b',' ∷ []) start_pos)
      ≡ some x)
    × (x.token.kind ≡ string)
    × (x.token.value ≡ awkward)
    × (x.cur.rest ≡ b',' ∷ [])
    × (x.diags ≡ [])
lex_string-print_quoted_example =
    lex_string-print_quoted ascii ascii-AreChars [] start_pos awkward (b',' ∷ [])
