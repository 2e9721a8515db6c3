-- ===== src/FrontEnd/Accepts.antt =====
-- What the front end hands to the importer.
use json_schema_mlir.Prelude.{
  ◌≡◌, refl, arith, Bool, true, false, Option, none, some, List, [], ◌∷◌, Bytes, if◌then◌else◌,
}
use mathlib.Core.Option.{none-ne-some, some-injective}
use mathlib.Core.Path.{subst}
use json_schema_mlir.Float.{Double}
use json_schema_mlir.Lexer.Token.{Token, Diagnostic, Chars, AreChars}
use json_schema_mlir.Lexer.Tokenize.{Tokens, tokenize}
use json_schema_mlir.Lexer.Moves.Ends.{EndsAtEof, Ends, tokenize-Ends}
use json_schema_mlir.Ast.{SchemaNode}
use json_schema_mlir.Parser.Values.{Reading, max_depth}
use json_schema_mlir.Parser.Schemas.{ParsedSchema, parse_document}
use json_schema_mlir.Parser.Grammar.{IsValue}
use json_schema_mlir.Parser.Shape.{IsSchema}
use json_schema_mlir.Parser.Document.{
  parse_document-accepts, parse_document-IsSchema, parse_document-some,
}
use json_schema_mlir.Parser.Sound.Document.{IsValue-parse_document}
use json_schema_mlir.FrontEnd.{
  FrontEnd, had_error, with_parsed, parse_tokens, run_front_end, schema_to_import,
}

no_error : (ds : List Diagnostic) → had_error ds ≡ false → ds ≡ []
no_error [] e = refl
no_error (d ∷ ds) e = absurd (ground arith)

if_not :
    {A : Type 0} (b : Bool) (o : Option A) (x : A)
    → (if b then none else o) ≡ some x
    → (b ≡ false) × (o ≡ some x)
if_not true o x e = absurd (none-ne-some x e)
if_not false o x e = (refl, e)

module _ {D : Type 0} ⦃d : Double D⦄ (r : Reading D) where
  -- The tokens were parsed, and end at the only end of file.
  record IsRun (f : FrontEnd D) : Type 0 where
    pub ends : EndsAtEof f.tokens
    pub parses : parse_document r f.tokens ≡ some f.parsed

  with_parsed-IsRun :
      (tokens : List Token) (diags : List Diagnostic) (o : Option (ParsedSchema D)) (f : FrontEnd D)
      → EndsAtEof tokens
      → parse_document r tokens ≡ o
      → with_parsed (tokens, diags) o ≡ some f
      → IsRun f
  with_parsed-IsRun tokens diags none f h e q = absurd (none-ne-some f q)
  with_parsed-IsRun tokens diags (some p) f h e q =
      subst IsRun (some-injective (record { tokens = tokens; lexer_diags = diags; parsed = p }) f q)
        (record { ends = h; parses = e })

  parse_tokens-IsRun :
      (o : Option Tokens) (f : FrontEnd D) → Ends o → parse_tokens r o ≡ some f → IsRun f
  parse_tokens-IsRun none f h e = absurd h
  parse_tokens-IsRun (some (tokens, diags)) f h e =
      with_parsed-IsRun tokens diags (parse_document r tokens) f h refl e

  run_front_end-IsRun :
      (ch : Chars) (laws : AreChars ch) (allow : Bool) (text : Bytes) (f : FrontEnd D)
      → run_front_end r ch allow text ≡ some f
      → IsRun f
  unfolding run_front_end
  run_front_end-IsRun ch laws allow text f e =
      parse_tokens-IsRun (tokenize ch allow text) f (tokenize-Ends ch laws allow text) e

  parse_tokens-some : (o : Option Tokens) → Ends o → (f : FrontEnd D) × (parse_tokens r o ≡ some f)
  parse_tokens-some none h = absurd h
  parse_tokens-some (some (tokens, diags)) h =
      let (p, e) = parse_document-some r tokens in
      (record { tokens = tokens; lexer_diags = diags; parsed = p }, rw e refl)

  -- On every buffer the front end lexes and parses, and returns.
  pub run_front_end-some :
      (ch : Chars) (laws : AreChars ch) (allow : Bool) (text : Bytes)
      → (f : FrontEnd D) × (run_front_end r ch allow text ≡ some f)
  unfolding run_front_end
  run_front_end-some ch laws allow text =
      parse_tokens-some (tokenize ch allow text) (tokenize-Ends ch laws allow text)

  -- If a schema goes to the importer, then neither the lexer nor the parser reported anything, the
  -- tokens of the buffer are a JSON value with brackets nested at most 256 deep and one token behind
  -- it, and the schema is well-formed and nested within the limit.
  pub schema_to_import_lem :
      (ch : Chars) (laws : AreChars ch) (allow : Bool) (text : Bytes) (f : FrontEnd D)
      (root : SchemaNode D)
      → run_front_end r ch allow text ≡ some f
      → schema_to_import f ≡ some root
      → (f.lexer_diags ≡ [])
        × (f.parsed.diags ≡ [])
        × ((e : Token) × IsValue 256 f.tokens (e ∷ []))
        × IsSchema r max_depth root
  unfolding schema_to_import
  schema_to_import_lem ch laws allow text f root e q =
      let run = run_front_end-IsRun ch laws allow text f e in
      let (b, s) = if_not _ f.parsed.root root q in
      let p : f.parsed.failed ≡ false = ground arith in
      (
        no_error f.lexer_diags (ground arith),
        (parse_document-accepts r f.tokens f.parsed run.parses p).1,
        IsValue-parse_document r f.tokens f.parsed run.ends run.parses p,
        parse_document-IsSchema r f.tokens f.parsed root run.parses s,
      )
