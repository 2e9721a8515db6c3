-- ===== src/Parser/Document.antt =====
-- `parseSchema` of a whole token stream.
use json_schema_mlir.Prelude.{
  ℕ, ◌+◌, ◌-◌, ◌^◌, ◌<◌, ◌≡◌, refl, arith, true, false, Bool-cases, inl, inr, Option, none, some,
  List, [], length, All,
}
use mathlib.Core.Path.{subst}
use mathlib.Core.Option.{none-ne-some, some-injective}
use json_schema_mlir.Float.{Double}
use json_schema_mlir.Lexer.Token.{eof, error, Token}
use json_schema_mlir.Ast.{SchemaNode}
use json_schema_mlir.Parser.State.{
  State, initial, tok, is, report, expected_document, trailing_content,
}
use json_schema_mlir.Parser.Values.{Reading, max_depth}
use json_schema_mlir.Parser.Schemas.{
  ParsedSchema, parsed, at_end, run_document, finished, parse_document,
}
use json_schema_mlir.Parser.Steps.{IsLoud, Step, Move, still, report-Move, error_at_token-Move}
use json_schema_mlir.Parser.Steps.Moves.{Gives, gives, and_then-Gives}
use json_schema_mlir.Parser.Steps.Separators.{error_at_token-fails}
use json_schema_mlir.Parser.Numbers.{Ascends, from, Ascends-from, IsNumbered, IsNumbered-carry}
use json_schema_mlir.Parser.Shape.{IsSchema}
use json_schema_mlir.Parser.Trees.{schema_ids, IsKeptSchema, SchemaResult}
use json_schema_mlir.Parser.Trees.Schemas.{parse_schema-Gives}

-- A parse that has not failed is at the end of the file.
pub record IsResult {D : Type 0} ⦃d : Double D⦄ (r : Reading D) (s : State)
    (o : Option (SchemaNode D)) (t : State) : Type 0 where
  pub kept : SchemaResult r max_depth s o t
  pub at_eof : t.failed ≡ false → is eof (tok t) ≡ true

at_end-Move : (s : State) → Move s (at_end s)
at_end-Move s = elim (Bool-cases (is eof (tok s))) [
  | inl e ↦ rw e still
  | inr e ↦ rw e (error_at_token-Move trailing_content s)
]

at_end-eof : (s : State) → (at_end s).failed ≡ false → is eof (tok (at_end s)) ≡ true
at_end-eof s = elim (Bool-cases (is eof (tok s))) [
  | inl e ↦ rw e (λ f. e)
  | inr e ↦ let g = error_at_token-fails trailing_content s in rw e (λ f. absurd (ground arith))
]

no_gaps : (ns : List ℕ) (hi : ℕ) → Ascends 0 ns hi → length ns + 0 ≡ hi → ns ≡ from 0 hi
no_gaps ns hi a e = let f : length ns ≡ hi = omega arith in rw (← f) (Ascends-from 0 hi ns a e)

initial-IsLoud :
    (tokens : List Token)
    → All (λ t. is error t ≡ false) tokens
    → All (λ t. t.range.begin.offset < 2 ^ 32 - 1) tokens
    → IsLoud (initial tokens)
initial-IsLoud tokens w h = record {
  well_lexed = w;
  fits = h;
  told = λ e. absurd (ground arith);
  last = λ e. absurd (omega arith);
}

module _ {D : Type 0} ⦃d : Double D⦄ (r : Reading D) where
  carry_result :
      (levels : ℕ) (s : State) (o : Option (SchemaNode D)) {t u : State}
      → Move t u
      → SchemaResult r levels s o t
      → SchemaResult r levels s o u
  carry_result levels s none p f = p.step.fails f
  carry_result levels s (some n) p h = record {
    numbered = IsNumbered-carry p h.numbered;
    shaped = h.shaped;
  }

  pub run_document-Gives : (s : State) → Gives s (IsResult r s) (run_document r s)
  unfolding run_document report
  run_document-Gives s = elim (Bool-cases (is eof (tok s))) [
    | inl e ↦ rw e (
        gives (report-Move (tok s).range.begin expected_document s).step
          (record { kept = refl; at_eof = λ f. e }))
    | inr e ↦ rw e (
        and_then-Gives (parse_schema-Gives r max_depth s) (λ o t p h.
          gives (at_end-Move t).step (record {
            kept = carry_result max_depth s o (at_end-Move t) h;
            at_eof = at_end-eof t;
          })))
  ]

  from_finished :
      {s : State} {o : Option (Option (SchemaNode D) × State)} (Q : ParsedSchema D → Type 0)
      (p : ParsedSchema D)
      → Gives s (IsResult r s) o
      → ((a : Option (SchemaNode D)) (t : State) → Step s t → IsResult r s a t → Q (parsed a t))
      → finished o ≡ some p
      → Q p
  from_finished Q p (gives {a} {t} q h) k e = subst Q (some-injective (parsed a t) p e) (k a t q h)

  -- What holds of the end of every run holds of what `parse_document` gives.
  from_end :
      (Q : ParsedSchema D → Type 0) (tokens : List Token) (p : ParsedSchema D)
      → ((a : Option (SchemaNode D)) (t : State)
          → Step (initial tokens) t
          → IsResult r (initial tokens) a t
          → Q (parsed a t))
      → parse_document r tokens ≡ some p
      → Q p
  unfolding parse_document
  from_end Q tokens p k e = from_finished Q p (run_document-Gives (initial tokens)) k e

  finished-some :
      {s : State} {o : Option (Option (SchemaNode D) × State)}
      → Gives s (IsResult r s) o
      → (p : ParsedSchema D) × (finished o ≡ some p)
  finished-some (gives {a} {t} q h) = (parsed a t, refl)

  -- On every token stream, the parser returns a result: no loop runs out of fuel.
  pub parse_document-some :
      (tokens : List Token) → (p : ParsedSchema D) × (parse_document r tokens ≡ some p)
  unfolding parse_document
  parse_document-some tokens = finished-some (run_document-Gives (initial tokens))

  kept_root :
      (s : State) (o : Option (SchemaNode D)) (root : SchemaNode D) (t : State)
      → SchemaResult r max_depth s o t
      → o ≡ some root
      → IsKeptSchema r max_depth s root t
  kept_root s none root t h e = absurd (none-ne-some root e)
  kept_root s (some n) root t h e = rw (← some-injective n root e) h

  root_kept :
      (s : State) (o : Option (SchemaNode D)) (t : State)
      → SchemaResult r max_depth s o t
      → t.failed ≡ false
      → (root : SchemaNode D) × (o ≡ some root)
  root_kept s none t h e = absurd (ground arith)
  root_kept s (some n) t h e = (n, refl)

  ids_numbered :
      (root : SchemaNode D) (t : State)
      → IsNumbered 0 (schema_ids root) t
      → Ascends 0 (schema_ids root) t.next_id
        × (t.failed ≡ false → schema_ids root ≡ from 0 t.next_id)
  ids_numbered root t h =
      (h.ascends, λ e. no_gaps (schema_ids root) t.next_id h.ascends (h.dense e))

  -- The numbers of the nodes of the tree, in pre-order, are strictly ascending and below the number
  -- of nodes. When the parse has not failed, they are the numbers from 0 up to it, without a gap.
  pub ids-parse_document :
      (tokens : List Token) (p : ParsedSchema D) (root : SchemaNode D)
      → parse_document r tokens ≡ some p
      → p.root ≡ some root
      → Ascends 0 (schema_ids root) p.num_nodes
        × (p.failed ≡ false → schema_ids root ≡ from 0 p.num_nodes)
  ids-parse_document tokens p root e =
      from_end
        (λ p.
          p.root ≡ some root
          → Ascends 0 (schema_ids root) p.num_nodes
            × (p.failed ≡ false → schema_ids root ≡ from 0 p.num_nodes))
        tokens p
        (λ a t q h f. ids_numbered root t (kept_root (initial tokens) a root t h.kept f).numbered) e

  -- The tree of a document, of a failed parse too, has no schema nested deeper than the limit; in
  -- each schema no key occurs twice, nor a property name in `properties`, a type in `type` or a
  -- name in `required`; the name of each keyword is a word for its kind, and an unknown keyword is a
  -- word for none; the keywords with a number, a length or a string are of a kind that has one;
  -- numbers are finite, and each length is the integer of a finite whole number that is neither
  -- negative nor larger than the largest exact one.
  pub parse_document-IsSchema :
      (tokens : List Token) (p : ParsedSchema D) (root : SchemaNode D)
      → parse_document r tokens ≡ some p
      → p.root ≡ some root
      → IsSchema r max_depth root
  parse_document-IsSchema tokens p root e =
      from_end (λ p. p.root ≡ some root → IsSchema r max_depth root) tokens p
        (λ a t q h f. (kept_root (initial tokens) a root t h.kept f).shaped) e

  -- A parse that has not failed gives a tree and reports nothing.
  pub parse_document-accepts :
      (tokens : List Token) (p : ParsedSchema D)
      → parse_document r tokens ≡ some p
      → p.failed ≡ false
      → ((root : SchemaNode D) × (p.root ≡ some root)) × (p.diags ≡ [])
  parse_document-accepts tokens p e =
      from_end
        (λ p. p.failed ≡ false → ((root : SchemaNode D) × (p.root ≡ some root)) × (p.diags ≡ []))
        tokens p (λ a t q h f. (root_kept (initial tokens) a t h.kept f, q.quiet f)) e

  -- A failed parse reports something, if no token is an error token of the lexer and no token begins
  -- at the offset that stands for no error.
  pub parse_document-reports :
      (tokens : List Token) (p : ParsedSchema D)
      → All (λ t. is error t ≡ false) tokens
      → All (λ t. t.range.begin.offset < 2 ^ 32 - 1) tokens
      → parse_document r tokens ≡ some p
      → p.failed ≡ true
      → 0 < length p.diags
  parse_document-reports tokens p w h e =
      from_end (λ p. p.failed ≡ true → 0 < length p.diags) tokens p
        (λ a t q g f. (q.loud (initial-IsLoud tokens w h)).told f) e
