-- ===== src/FrontEnd.antt =====
-- lib/Schema/Import/Translation.cpp: `runFrontEnd` up to the importer, without the options that print
-- the tokens or the tree and stop.
pub mod Accepts
use json_schema_mlir.Prelude.{
  Bool, true, false, not, ◌||◌, Option, none, some, List, [], ◌∷◌, Bytes, if◌then◌else◌, is_some,
}
use json_schema_mlir.Float.{Double}
use json_schema_mlir.Lexer.Token.{Token, Diagnostic, Chars}
use json_schema_mlir.Lexer.Tokenize.{Tokens, tokenize}
use json_schema_mlir.Ast.{SchemaNode}
use json_schema_mlir.Parser.Values.{Reading}
use json_schema_mlir.Parser.Schemas.{ParsedSchema, parse_document}

-- The lexer's part of `TraceState`, with what it reported, and the parser's.
pub record FrontEnd (D : Type 0) : Type 0 where
  pub tokens : List Token
  pub lexer_diags : List Diagnostic
  pub parsed : ParsedSchema D

-- `hadError`: the lexer reports nothing but errors.
abbrev pub had_error : List Diagnostic → Bool
had_error [] = false
had_error (d ∷ diags) = true

abbrev pub with_parsed : {D : Type 0} → Tokens → Option (ParsedSchema D) → Option (FrontEnd D)
with_parsed (tokens, diags) none = none
with_parsed (tokens, diags) (some parsed) =
    some (record { tokens = tokens; lexer_diags = diags; parsed = parsed })

module _ {D : Type 0} ⦃d : Double D⦄ (r : Reading D) where
  abbrev pub parse_tokens : Option Tokens → Option (FrontEnd D)
  parse_tokens none = none
  parse_tokens (some (tokens, diags)) = with_parsed (tokens, diags) (parse_document r tokens)

  unfoldable pub run_front_end : Chars → Bool → Bytes → Option (FrontEnd D)
  run_front_end ch allow text = parse_tokens (tokenize ch allow text)

-- The schema that goes to the importer.
unfoldable pub schema_to_import : {D : Type 0} → FrontEnd D → Option (SchemaNode D)
schema_to_import f =
    if had_error f.lexer_diags || (f.parsed.failed || not (is_some f.parsed.root))
    then none
    else f.parsed.root
