-- ===== src/Parser/Trees/Leaves.antt =====
-- `type` and `required`.
use json_schema_mlir.Prelude.{
  ℕ, ◌-◌, ◌≡◌, refl, sym, ◌∙◌, Bool, true, false, Bool-cases, inl, inr, Option, none, some, [],
  if◌then◌else◌,
}
use json_schema_mlir.Float.{Double}
use json_schema_mlir.Lexer.Source.{SourcePos}
use json_schema_mlir.Lexer.Token.{l_square, string, Token}
use json_schema_mlir.Ast.{type_kind, required_kind, KeywordNode, type_keyword, required_keyword}
use json_schema_mlir.Ast.Walk.{keyword_nodes}
use json_schema_mlir.Parser.State.{
  ParseMessage, State, tok, is, peek_is_close, report, bump_id, bad_value, empty_types,
}
use json_schema_mlir.Parser.Loops.{and_then, parse_array}
use json_schema_mlir.Parser.Values.{bad_value_at, Reading}
use json_schema_mlir.Parser.Names.{keyword_kind_of}
use json_schema_mlir.Parser.Vocabulary.{keyword_kind_of-IsCalled}
use json_schema_mlir.Parser.Keywords.{
  new_info, Types, type_element, Names, required_element, parse_type_keyword,
  parse_required_keyword,
}
use json_schema_mlir.Parser.Steps.{Step, stay, ◌then◌, Move, still, report-Move, bump_id-Step}
use json_schema_mlir.Parser.Steps.Moves.{Gives, gives, and_then-Gives, after, weaken}
use json_schema_mlir.Parser.Steps.Loops.{parse_array-Gives}
use json_schema_mlir.Parser.Steps.Values.{Refused, bad_value_at-Gives}
use json_schema_mlir.Parser.Shape.{same_type, same_name, IsKeyword}
use json_schema_mlir.Parser.Trees.{one_number, KeywordResult}
use mathlib.Core.Option.{none-ne-some}
use json_schema_mlir.Parser.Trees.Entries.{
  Entries, Entries-IsStable, add_type-Gives, type_element-Keeps, required_element-Keeps,
}

-- An error about an array comes behind it.
pub report_if-Move :
    (b : Bool) (at : SourcePos) (m : ParseMessage) (s : State)
    → Move s (if b then report at m s else s)
report_if-Move true at m s = report-Move at m s
report_if-Move false at m s = still

module _ {D : Type 0} ⦃d : Double D⦄ (r : Reading D) (l : ℕ) where
  pub Refused-KeywordResult :
      (key : Token) (s u : State) (o : Option (KeywordNode D)) (t : State)
      → Refused u o t
      → KeywordResult r l key s o t
  Refused-KeywordResult key s u none t (e, f, i) = f
  Refused-KeywordResult key s u (some k) t (e, f, i) = absurd (none-ne-some k (sym e))

  -- A keyword whose value has the wrong shape.
  pub bad_keyword-Gives :
      (key : Token) (levels : ℕ) (s t : State)
      → Step s t
      → Gives s (KeywordResult r l key s) (bad_value_at (bad_value key.value) levels t)
  bad_keyword-Gives key levels s t p = after p (
      weaken (λ o u q h. Refused-KeywordResult key s t o u h)
        (bad_value_at-Gives (bad_value key.value) levels t))

  type_node-Gives :
      (key : Token) (s : State) (types : Types) {t u : State}
      → keyword_kind_of key.value ≡ type_kind
      → Move t u
      → Entries same_type (bump_id s) types t
      → Gives t
          (KeywordResult r l key s)
          (some (some (type_keyword (new_info type_kind key s) types), u))
  unfolding keyword_nodes IsKeyword
  type_node-Gives key s types e p (d, i) = gives p.step (record {
    numbered = one_number s (p.same ∙ i);
    shaped = ((refl, keyword_kind_of-IsCalled key.value e), d);
    named = refl;
  })

  type_array-Gives :
      (key : Token) (levels : ℕ) (s : State)
      → keyword_kind_of key.value ≡ type_kind
      → let t = bump_id s in
        Gives t (KeywordResult r l key s) (
          and_then (parse_array (type_element key (levels - 1)) [] t) (λ types u. some (
            some (type_keyword (new_info type_kind key s) types),
            if peek_is_close t then report (tok t).range.begin empty_types u else u,
          )))
  type_array-Gives key levels s e =
      let t = bump_id s in
      and_then-Gives
        (parse_array-Gives (Entries-IsStable same_type t) (type_element key (levels - 1)) [] t
          (type_element-Keeps t key (levels - 1)) (tt, refl))
        (λ types u q h.
          type_node-Gives key s types e
            (report_if-Move (peek_is_close t) (tok t).range.begin empty_types u) h)

  pub parse_type_keyword-Gives :
      (key : Token) (levels : ℕ) (s : State)
      → keyword_kind_of key.value ≡ type_kind
      → Gives s (KeywordResult r l key s) (parse_type_keyword key levels s)
  unfolding parse_type_keyword
  parse_type_keyword-Gives key levels s e =
      let b = bump_id-Step s in
      let t = bump_id s in
      elim (Bool-cases (is string (tok t))) [
        | inl p ↦ rw p (
            after b (
              and_then-Gives (add_type-Gives t [] t (tt, refl))
                (λ types u q h. type_node-Gives key s types e still h)))
        | inr p ↦ elim (Bool-cases (is l_square (tok t))) [
          | inl q ↦ rw (p, q) (after b (type_array-Gives key levels s e))
          | inr q ↦ rw (p, q) (bad_keyword-Gives key levels s t b)
        ]
      ]

  required_node-Gives :
      (key : Token) (s : State) (names : Names) (t : State)
      → keyword_kind_of key.value ≡ required_kind
      → Entries same_name (bump_id s) names t
      → Gives t
          (KeywordResult r l key s)
          (some (some (required_keyword (new_info required_kind key s) names), t))
  unfolding keyword_nodes IsKeyword
  required_node-Gives key s names t e (d, i) = gives stay (record {
    numbered = one_number s i;
    shaped = ((refl, keyword_kind_of-IsCalled key.value e), d);
    named = refl;
  })

  pub parse_required_keyword-Gives :
      (key : Token) (levels : ℕ) (s : State)
      → keyword_kind_of key.value ≡ required_kind
      → Gives s (KeywordResult r l key s) (parse_required_keyword key levels s)
  unfolding parse_required_keyword
  parse_required_keyword-Gives key levels s e =
      let t = bump_id s in
      elim (Bool-cases (is l_square (tok s))) [
        | inl p ↦ rw p (
            after (bump_id-Step s) (
              and_then-Gives
                (parse_array-Gives (Entries-IsStable same_name t)
                  (required_element key (levels - 1)) [] t
                  (required_element-Keeps t key (levels - 1)) (tt, refl))
                (λ names u q h. required_node-Gives key s names u e h)))
        | inr p ↦ rw p (bad_keyword-Gives key levels s s stay)
      ]
