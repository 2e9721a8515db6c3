-- ===== src/Parser/Sound/Document.antt =====
-- What a document is that `parseSchema` accepts.
use json_schema_mlir.Prelude.{
  ◌≡◌, refl, arith, true, false, Bool-cases, inl, inr, Option, some, List, [], ◌∷◌,
}
use mathlib.Core.Path.{subst}
use mathlib.Core.Option.{some-injective}
use json_schema_mlir.Float.{Double}
use json_schema_mlir.Lexer.Token.{eof, Token}
use json_schema_mlir.Lexer.Moves.Ends.{EndsAtEof}
use json_schema_mlir.Ast.{SchemaNode}
use json_schema_mlir.Parser.State.{
  State, initial, head_token, tok, is, expected_document, trailing_content,
}
use json_schema_mlir.Parser.Values.{Reading, max_depth}
use json_schema_mlir.Parser.Schemas.{
  ParsedSchema, parsed, at_end, run_document, finished, parse_document,
}
use json_schema_mlir.Parser.Grammar.{IsValue}
use json_schema_mlir.Parser.Steps.{Step, stay, report-Move, error_at_token-Move}
use json_schema_mlir.Parser.Steps.Moves.{Gives, gives, and_then-Gives}
use json_schema_mlir.Parser.Steps.Separators.{report-fails, error_at_token-fails}
use json_schema_mlir.Parser.Stream.{is-eof, Behind-EndsAtEof}
use json_schema_mlir.Parser.Sound.{Reads, fails-Reads}
use json_schema_mlir.Parser.Sound.Schemas.{parse_schema-Reads}

-- A value in front of a last token.
data ReadsAll : List Token → List Token → Type 0 where
  reads_all :
      {xs ys : List Token} → IsValue 256 xs ys → is eof (head_token ys) ≡ true → ReadsAll xs ys

at_end-Reads :
    {L : Type 0} (o : L) (s t : State)
    → Reads (IsValue 256) s o t
    → Gives t (Reads ReadsAll s) (some (o, at_end t))
at_end-Reads o s t g = elim (Bool-cases (is eof (tok t))) [
  | inl e ↦ rw e (gives stay (λ f. reads_all (g f) e))
  | inr e ↦
      let h = error_at_token-fails trailing_content t in
      rw e (gives (error_at_token-Move trailing_content t).step (λ f. absurd (ground arith)))
]

only_last :
    (ts : List Token) → EndsAtEof ts → is eof (head_token ts) ≡ true → (t : Token) × (ts ≡ t ∷ [])
only_last [] h e = absurd h
only_last (t ∷ []) h e = (t, refl)
only_last (t ∷ u ∷ ts) h e = let f = is-eof t in let g = h.0 in absurd (ground arith)

module _ {D : Type 0} ⦃d : Double D⦄ (r : Reading D) where
  run_document-Reads : (s : State) → Gives s (Reads ReadsAll s) (run_document r s)
  unfolding run_document
  run_document-Reads s = elim (Bool-cases (is eof (tok s))) [
    | inl e ↦ rw e (
        fails-Reads ReadsAll (report-Move (tok s).range.begin expected_document s)
          (report-fails (tok s).range.begin expected_document s))
    | inr e ↦
        rw e (and_then-Gives (parse_schema-Reads r max_depth s) (λ o t p g. at_end-Reads o s t g))
  ]

  last_token :
      (s t : State)
      → Step s t
      → EndsAtEof s.rest
      → ReadsAll s.rest t.rest
      → (e : Token) × IsValue 256 s.rest (e ∷ [])
  last_token s t p h (reads_all v e) =
      let (u, q) = only_last t.rest (Behind-EndsAtEof p.tokens h) e in
      (u, subst (IsValue 256 s.rest) q v)

  accepted :
      {s : State} {o : Option (Option (SchemaNode D) × State)} (p : ParsedSchema D)
      → EndsAtEof s.rest
      → Gives s (Reads ReadsAll s) o
      → finished o ≡ some p
      → p.failed ≡ false
      → (e : Token) × IsValue 256 s.rest (e ∷ [])
  accepted {s} p h (gives {a} {t} q g) e =
      subst (λ p. p.failed ≡ false → (e : Token) × IsValue 256 s.rest (e ∷ []))
        (some-injective (parsed a t) p e) (λ f. last_token s t q h (g f))

  -- A document that is parsed without a failure is a JSON value with brackets nested at most 256 deep,
  -- with one token behind it, if the stream ends at its only end of file.
  pub IsValue-parse_document :
      (tokens : List Token) (p : ParsedSchema D)
      → EndsAtEof tokens
      → parse_document r tokens ≡ some p
      → p.failed ≡ false
      → (e : Token) × IsValue 256 tokens (e ∷ [])
  unfolding parse_document
  IsValue-parse_document tokens p h e f = accepted p h (run_document-Reads (initial tokens)) e f
