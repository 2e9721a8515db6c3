-- ===== src/Parser/Trees/Scalars.antt =====
-- The keywords with a number, a string or any value.
use json_schema_mlir.Prelude.{
  arith, ℕ, ◌+◌, ◌≡◌, refl, Bool-cases, inl, inr, Option, none, some, Bytes, if◌then◌else◌,
}
use json_schema_mlir.Float.{Double}
use json_schema_mlir.Lexer.Source.{SourcePos}
use json_schema_mlir.Lexer.Token.{string, number, Token}
use json_schema_mlir.Ast.{KeywordKind, annotation_kind, unknown_kind, annotation_keyword}
use json_schema_mlir.Ast.Walk.{keyword_nodes}
use json_schema_mlir.Parser.State.{State, tok, is, report, bump_id, bad_value}
use json_schema_mlir.Parser.Values.{Reading}
use json_schema_mlir.Parser.Names.{keyword_kind_of}
use json_schema_mlir.Parser.Vocabulary.{keyword_kind_of-IsCalled}
use json_schema_mlir.Parser.Keywords.{
  new_info, parse_string_keyword, parse_annotation_keyword, parse_unknown_keyword, number_node,
  parse_number_keyword, is_bad_length, length_node, parse_length_keyword,
}
use json_schema_mlir.Parser.Steps.{Step, stay, ◌then◌, consume-Move, report-Move, bump_id-Step}
use json_schema_mlir.Parser.Steps.Moves.{Gives, gives, and_then-Gives, after}
use json_schema_mlir.Parser.Steps.Values.{skip_value-Gives, IsRead, parse_number-Gives}
use json_schema_mlir.Parser.Shape.{IsKeyword, IsNumberKind, IsLengthKind, IsStringKind}
use json_schema_mlir.Parser.Trees.{one_number, KeywordResult}
use json_schema_mlir.Parser.Trees.Leaves.{bad_keyword-Gives}

module _ {D : Type 0} ⦃d : Double D⦄ (r : Reading D) (l : ℕ) where
  pub parse_string_keyword-Gives :
      (kind : KeywordKind) (key : Token) (levels : ℕ) (s : State)
      → IsStringKind kind
      → keyword_kind_of key.value ≡ kind
      → Gives s (KeywordResult r l key s) (parse_string_keyword kind key levels s)
  unfolding parse_string_keyword keyword_nodes IsKeyword
  parse_string_keyword-Gives kind key levels s ok e =
      let p = consume-Move (bump_id s) in
      elim (Bool-cases (is string (tok s))) [
        | inl q ↦ rw q (
            gives (bump_id-Step s then p.step) (record {
              numbered = one_number s p.same;
              shaped = (ok, keyword_kind_of-IsCalled key.value e);
              named = refl;
            }))
        | inr q ↦ rw q (bad_keyword-Gives r l key levels s (bump_id s) (bump_id-Step s))
      ]

  annotation_node-Gives :
      (key : Token) (s t u : State) (text : Option Bytes)
      → keyword_kind_of key.value ≡ annotation_kind
      → Step t u
      → u.next_id ≡ s.next_id + 1
      → Gives t
          (KeywordResult r l key s)
          (some (some (annotation_keyword (new_info annotation_kind key s) text), u))
  unfolding keyword_nodes IsKeyword
  annotation_node-Gives key s t u text e p i = gives p (record {
    numbered = one_number s i;
    shaped = (refl, keyword_kind_of-IsCalled key.value e);
    named = refl;
  })

  pub parse_annotation_keyword-Gives :
      (key : Token) (levels : ℕ) (s : State)
      → keyword_kind_of key.value ≡ annotation_kind
      → Gives s (KeywordResult r l key s) (parse_annotation_keyword key levels s)
  unfolding parse_annotation_keyword
  parse_annotation_keyword-Gives key levels s e =
      let b = bump_id-Step s in
      let p = consume-Move (bump_id s) in
      elim (Bool-cases (is string (tok s))) [
        | inl q ↦
            rw q (annotation_node-Gives key s s _ (some (tok s).value) e (b then p.step) p.same)
        | inr q ↦ rw q (
            after b (
              and_then-Gives (skip_value-Gives levels (bump_id s))
                (λ u t w i. annotation_node-Gives key s t t none e stay i)))
      ]

  pub parse_unknown_keyword-Gives :
      (key : Token) (levels : ℕ) (s : State)
      → keyword_kind_of key.value ≡ unknown_kind
      → Gives s (KeywordResult r l key s) (parse_unknown_keyword key levels s)
  unfolding parse_unknown_keyword keyword_nodes IsKeyword
  parse_unknown_keyword-Gives key levels s e = after (bump_id-Step s) (
      and_then-Gives (skip_value-Gives levels (bump_id s)) (λ u t w i. gives stay (record {
        numbered = one_number s i;
        shaped = (refl, keyword_kind_of-IsCalled key.value e);
        named = refl;
      })))

  number_node-Gives :
      (kind : KeywordKind) (key : Token) (s : State) (o : Option (D × Bytes)) (t : State)
      → IsNumberKind kind
      → keyword_kind_of key.value ≡ kind
      → IsRead (bump_id s) o t
      → Gives t (KeywordResult r l key s) (number_node r (new_info kind key s) o t)
  unfolding keyword_nodes IsKeyword
  number_node-Gives kind key s none t ok e h = gives stay (h.present refl)
  number_node-Gives kind key s (some (x, spelling)) t ok e h = gives stay (record {
    numbered = one_number s h.same;
    shaped = (ok, keyword_kind_of-IsCalled key.value e, h.finite x spelling refl);
    named = refl;
  })

  pub parse_number_keyword-Gives :
      (kind : KeywordKind) (key : Token) (levels : ℕ) (s : State)
      → IsNumberKind kind
      → keyword_kind_of key.value ≡ kind
      → Gives s (KeywordResult r l key s) (parse_number_keyword r kind key levels s)
  unfolding parse_number_keyword
  parse_number_keyword-Gives kind key levels s ok e = after (bump_id-Step s) (
      and_then-Gives (parse_number-Gives r key levels (bump_id s))
        (λ o t p h. number_node-Gives kind key s o t ok e h))

  length_node-Gives :
      (kind : KeywordKind) (key : Token) (at : SourcePos) (s : State) (o : Option (D × Bytes))
      (t : State)
      → IsLengthKind kind
      → keyword_kind_of key.value ≡ kind
      → IsRead (bump_id s) o t
      → Gives t (KeywordResult r l key s) (length_node r (new_info kind key s) at o t)
  unfolding keyword_nodes IsKeyword report is_bad_length
  length_node-Gives kind key at s none t ok e h = gives stay (h.present refl)
  length_node-Gives kind key at s (some (x, spelling)) t ok e h =
      elim (Bool-cases (is_bad_length r x)) [
        | inl q ↦ rw q (gives (report-Move at (bad_value key.value) t).step refl)
        | inr q ↦ rw q (
            gives stay (record {
              numbered = one_number s h.same;
              shaped = (
                ok,
                keyword_kind_of-IsCalled key.value e,
                record {
                  number = x;
                  finite = h.finite x spelling refl;
                  not_negative = ground arith;
                  is_whole = ground arith;
                  not_larger = ground arith;
                  length_is = refl;
                },
              );
              named = refl;
            }))
      ]

  pub parse_length_keyword-Gives :
      (kind : KeywordKind) (key : Token) (levels : ℕ) (s : State)
      → IsLengthKind kind
      → keyword_kind_of key.value ≡ kind
      → Gives s (KeywordResult r l key s) (parse_length_keyword r kind key levels s)
  unfolding parse_length_keyword
  parse_length_keyword-Gives kind key levels s ok e =
      let b = bump_id-Step s in
      elim (Bool-cases (is number (tok (bump_id s)))) [
        | inl q ↦ rw q (
            after b (
              and_then-Gives (parse_number-Gives r key levels (bump_id s))
                (λ o t p h. length_node-Gives kind key (tok s).range.begin s o t ok e h)))
        | inr q ↦ rw q (bad_keyword-Gives r l key levels s (bump_id s) b)
      ]
