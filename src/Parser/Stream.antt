-- ===== src/Parser/Stream.antt =====
-- The place of the parser in its token stream.
use json_schema_mlir.Prelude.{
  ◌≤◌, ◌<◌, ◌≡◌, refl, arith, true, false, Option, some, List, [], ◌∷◌, length, ◌==◌,
}
use mathlib.Core.Option.{some-injective}
use mathlib.Core.Path.{subst}
use json_schema_mlir.Float.{Double}
use json_schema_mlir.Lexer.Token.{
  TokenKind, l_brace, r_brace, l_square, r_square, colon, comma, string, number, true_word,
  false_word, null_word, eof, error, Token,
}
use json_schema_mlir.Lexer.Tokenize.{is_eof}
use json_schema_mlir.Lexer.Moves.Ends.{EndsAtEof}
use json_schema_mlir.Ast.{SchemaNode}
use json_schema_mlir.Parser.State.{State, initial, head_token, is, kind_id}
use json_schema_mlir.Parser.Values.{Reading}
use json_schema_mlir.Parser.Schemas.{run_document}
use json_schema_mlir.Parser.Steps.{Behind, here, further, length-Behind, Step}
use json_schema_mlir.Parser.Steps.Moves.{Gives, gives}
use json_schema_mlir.Parser.Document.{IsResult, run_document-Gives}

eof_kind : (k : TokenKind) → (kind_id k == 11) ≡ is_eof k
eof_kind l_brace = refl
eof_kind r_brace = refl
eof_kind l_square = refl
eof_kind r_square = refl
eof_kind colon = refl
eof_kind comma = refl
eof_kind string = refl
eof_kind number = refl
eof_kind true_word = refl
eof_kind false_word = refl
eof_kind null_word = refl
eof_kind eof = refl
eof_kind error = refl

pub is-eof : (t : Token) → is eof t ≡ is_eof t.kind
unfolding is
is-eof t = eof_kind t.kind

-- A stream behind one that ends at its only end of file does so too.
tail-EndsAtEof :
    (t : Token) (ts : List Token) → is eof t ≡ false → EndsAtEof (t ∷ ts) → EndsAtEof ts
tail-EndsAtEof t [] e h = let f = is-eof t in absurd (ground arith)
tail-EndsAtEof t (u ∷ ts) e h = h.1

pub Behind-EndsAtEof : {xs ys : List Token} → Behind xs ys → EndsAtEof xs → EndsAtEof ys
Behind-EndsAtEof here h = h
Behind-EndsAtEof (further {y} {ys} e b) h = tail-EndsAtEof y ys e (Behind-EndsAtEof b h)

length-EndsAtEof : (ts : List Token) → EndsAtEof ts → 0 < length ts
length-EndsAtEof [] h = absurd h
length-EndsAtEof (t ∷ ts) h = omega arith

only_eof : (ts : List Token) → EndsAtEof ts → is eof (head_token ts) ≡ true → length ts ≡ 1
only_eof [] h e = absurd h
only_eof (t ∷ []) h e = refl
only_eof (t ∷ u ∷ ts) h e = let f = is-eof t in let g = h.0 in absurd (ground arith)

module _ {D : Type 0} ⦃d : Double D⦄ (r : Reading D) where
  pub place :
      {s : State} {a : Option (Option (SchemaNode D) × State)} (o : Option (SchemaNode D))
      (t : State)
      → Gives s (IsResult r s) a
      → a ≡ some (o, t)
      → Step s t × IsResult r s o t
  place {s} o t (gives {a} {t = u} p h) e =
      subst (λ x. Step s x.1 × IsResult r s x.0 x.1) (some-injective (a, u) (o, t) e) (p, h)

  -- On a stream that ends at its only end of file, the parser never moves past the last token: from
  -- its place at the end of the run on there is at least one token, and at most all of them. When the
  -- parse has not failed, only the end of file is left.
  pub run_document-Behind :
      (tokens : List Token) (o : Option (SchemaNode D)) (t : State)
      → EndsAtEof tokens
      → run_document r (initial tokens) ≡ some (o, t)
      → (0 < length t.rest)
        × (length t.rest ≤ length tokens)
        × (t.failed ≡ false → length t.rest ≡ 1)
  run_document-Behind tokens o t h e =
      let (p, q) = place o t (run_document-Gives r (initial tokens)) e in
      let ends = Behind-EndsAtEof p.tokens h in
      (length-EndsAtEof t.rest ends, length-Behind p.tokens, λ f. only_eof t.rest ends (q.at_eof f))
