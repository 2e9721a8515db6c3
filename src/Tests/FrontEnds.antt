-- ===== src/Tests/FrontEnds.antt =====
-- Witnesses for the front end.
use json_schema_mlir.Prelude.{◌≡◌, refl, false, some, [], ◌∷◌, Bytes, bytes_eq}
use json_schema_mlir.Float.Halves.{Halves, halves_double}
use json_schema_mlir.Lexer.Source.{advance, scan_from, step_pos}
use json_schema_mlir.Lexer.Token.{l_brace, r_brace, eof, Token}
use json_schema_mlir.Lexer.Comments.{skip_comments}
use json_schema_mlir.Lexer.Tokenize.{lex_at, lex_token, tokenize_from, tokenize}
use json_schema_mlir.Ast.{SchemaNode, schema, no_keywords}
use json_schema_mlir.Parser.State.{is, consume}
use json_schema_mlir.Parser.Loops.{parse_object}
use json_schema_mlir.Parser.Values.{max_depth}
use json_schema_mlir.Parser.Schemas.{parse_schema_in, parse_schema, run_document, parse_document}
use json_schema_mlir.Parser.Grammar.{IsValue}
use json_schema_mlir.Parser.Shape.{IsSchema}
use json_schema_mlir.FrontEnd.{FrontEnd, run_front_end, schema_to_import}
use json_schema_mlir.FrontEnd.Accepts.{schema_to_import_lem}
use json_schema_mlir.Tests.Classes.{ascii, ascii-AreChars}
use json_schema_mlir.Tests.Parsing.{reading, at, token}

-- {}
abbrev text : Bytes
text = b'{' ∷ b'}' ∷ []

abbrev root : SchemaNode Halves
root = schema record { id = 0; range = record { begin = at 0; end = at 2 } } no_keywords

abbrev ran : FrontEnd Halves
ran = record {
  tokens =
      token l_brace 0 1 (b'{' ∷ []) []
      ∷ token r_brace 1 2 (b'}' ∷ []) []
      ∷ token eof 2 2 [] []
      ∷ [];
  lexer_diags = [];
  parsed = record { root = some root; num_nodes = 1; failed = false; diags = [] };
}

run_text : run_front_end reading ascii false text ≡ some ran
unfolding run_front_end tokenize tokenize_from lex_token lex_at skip_comments advance scan_from
    step_pos parse_document run_document parse_schema parse_schema_in parse_object consume is
    bytes_eq
run_text = refl

import_root : schema_to_import ran ≡ some root
unfolding schema_to_import
import_root = refl

schema_to_import_lem_example :
    (ran.lexer_diags ≡ [])
    × (ran.parsed.diags ≡ [])
    × ((e : Token) × IsValue 256 ran.tokens (e ∷ []))
    × IsSchema reading max_depth root
schema_to_import_lem_example =
    schema_to_import_lem reading ascii ascii-AreChars false text ran root run_text import_root
