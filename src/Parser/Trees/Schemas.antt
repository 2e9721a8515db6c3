-- ===== src/Parser/Trees/Schemas.antt =====
-- Keywords, and schemas on every level.
use json_schema_mlir.Prelude.{
  ℕ, zero, suc, ◌+◌, ◌≡◌, refl, sym, ◌||◌, Bool-cases, inl, inr, Option, none, some, [],
}
use mathlib.Core.Option.{none-ne-some}
use json_schema_mlir.Float.{Double}
use json_schema_mlir.Lexer.Token.{Token, l_brace, true_word, false_word}
use json_schema_mlir.Ast.{
  KeywordKind, type_kind, properties_kind, required_kind, all_of_kind, minimum_kind, maximum_kind,
  exclusive_minimum_kind, exclusive_maximum_kind, multiple_of_kind, min_length_kind,
  max_length_kind, pattern_kind, format_kind, annotation_kind, unknown_kind, SchemaNode, schema,
  Keywords, no_keywords, KeywordNode,
}
use json_schema_mlir.Ast.Walk.{schema_nodes, keywords_nodes}
use json_schema_mlir.Parser.State.{
  State, tok, is, bump_id, schema_too_deep, boolean_schema, expected_schema,
}
use json_schema_mlir.Parser.Loops.{and_then}
use json_schema_mlir.Parser.Values.{Reading, Seen, seen_at}
use json_schema_mlir.Parser.Names.{keyword_kind_of}
use json_schema_mlir.Parser.Keywords.{set_end}
use json_schema_mlir.Parser.Schemas.{
  Sub, parse_kind, parse_keyword, new_keyword, keyword_member, schema_info, parse_schema_in,
  parse_schema,
}
use json_schema_mlir.Parser.Steps.{
  Step, stay, ◌thence◌, bump_id-Step, consume-Move, error_at_token-Move,
}
use json_schema_mlir.Parser.Steps.Moves.{
  Gives, gives, and_then-Gives, after, weaken, skip_nested-Move,
}
use json_schema_mlir.Parser.Steps.Separators.{error_at_token-fails}
use json_schema_mlir.Parser.Steps.Loops.{IsStable, parse_object-Gives}
use json_schema_mlir.Parser.Steps.Values.{
  Refused, nothing-Gives, skip_value-Gives, unless_seen-Gives,
}
use json_schema_mlir.Parser.Numbers.{
  IsNumbered, none-IsNumbered, IsNumbered-append, IsNumbered-failed, IsNumbered-carry,
  IsNumbered-node,
}
use json_schema_mlir.Parser.Shape.{names_of, IsSchema, AreKeywords}
use json_schema_mlir.Parser.Trees.{keywords_ids, IsKeptSchema, SchemaResult, KeywordResult}
use json_schema_mlir.Parser.Trees.Append.{
  ids-append_keyword, names_of-append_keyword, append_keyword-AreKeywords, ids-set_end,
  name-set_end, set_end-IsKeyword,
}
use json_schema_mlir.Parser.Trees.Leaves.{parse_type_keyword-Gives, parse_required_keyword-Gives}
use json_schema_mlir.Parser.Trees.Scalars.{
  parse_string_keyword-Gives, parse_annotation_keyword-Gives, parse_unknown_keyword-Gives,
  parse_number_keyword-Gives, parse_length_keyword-Gives,
}
use json_schema_mlir.Parser.Trees.Members.{
  IsSub, parse_properties_keyword-Gives, parse_all_of_keyword-Gives,
}
use json_schema_mlir.Parser.Trees.Seen.{AreSeen, none_seen, AreSeen-mark, AreSeen-push}

module _ {D : Type 0} ⦃d : Double D⦄ (r : Reading D) (l : ℕ) where
  parse_kind-Gives :
      (sub : Sub D) (kind : KeywordKind) (key : Token) (levels : ℕ) (s : State)
      → IsSub r l sub
      → keyword_kind_of key.value ≡ kind
      → Gives s (KeywordResult r l key s) (parse_kind r sub kind key levels s)
  unfolding parse_kind
  parse_kind-Gives sub type_kind key v s k e = parse_type_keyword-Gives r l key v s e
  parse_kind-Gives sub properties_kind key v s k e =
      parse_properties_keyword-Gives r l sub key v s k e
  parse_kind-Gives sub required_kind key v s k e = parse_required_keyword-Gives r l key v s e
  parse_kind-Gives sub all_of_kind key v s k e = parse_all_of_keyword-Gives r l sub key v s k e
  parse_kind-Gives sub minimum_kind key v s k e = parse_number_keyword-Gives r l _ key v s tt e
  parse_kind-Gives sub maximum_kind key v s k e = parse_number_keyword-Gives r l _ key v s tt e
  parse_kind-Gives sub exclusive_minimum_kind key v s k e =
      parse_number_keyword-Gives r l _ key v s tt e
  parse_kind-Gives sub exclusive_maximum_kind key v s k e =
      parse_number_keyword-Gives r l _ key v s tt e
  parse_kind-Gives sub multiple_of_kind key v s k e = parse_number_keyword-Gives r l _ key v s tt e
  parse_kind-Gives sub min_length_kind key v s k e = parse_length_keyword-Gives r l _ key v s tt e
  parse_kind-Gives sub max_length_kind key v s k e = parse_length_keyword-Gives r l _ key v s tt e
  parse_kind-Gives sub pattern_kind key v s k e = parse_string_keyword-Gives r l _ key v s tt e
  parse_kind-Gives sub format_kind key v s k e = parse_string_keyword-Gives r l _ key v s tt e
  parse_kind-Gives sub annotation_kind key v s k e = parse_annotation_keyword-Gives r l key v s e
  parse_kind-Gives sub unknown_kind key v s k e = parse_unknown_keyword-Gives r l key v s e

  -- The keywords read so far, of the schema that is numbered at `s`.
  pub record AreKeptKeywords (s : State) (x : Seen × Keywords D) (t : State) : Type 0 where
    pub numbered : IsNumbered (s.next_id + 1) (keywords_ids x.1) t
    pub shaped : AreKeywords r l x.1
    pub named : AreSeen x.0 (names_of x.1)

  AreKeptKeywords-IsStable : (s : State) → IsStable (AreKeptKeywords s)
  AreKeptKeywords-IsStable s = record {
    carry = λ p h. record {
      numbered = IsNumbered-carry p h.numbered;
      shaped = h.shaped;
      named = h.named;
    };
  }

  new_keyword-Gives :
      (s0 s : State) (key : Token) (seen : Seen) (ks : Keywords D) (o : Option (KeywordNode D))
      (t : State)
      → AreKeptKeywords s0 (seen, ks) s
      → seen_at seen key.value ≡ none
      → Step s t
      → KeywordResult r l key s o t
      → Gives t (AreKeptKeywords s0) (new_keyword key seen ks o t)
  new_keyword-Gives s0 s key seen ks none t h e p f = gives stay (record {
    numbered = IsNumbered-failed p f h.numbered;
    shaped = h.shaped;
    named = AreSeen-mark key h.named;
  })
  new_keyword-Gives s0 s key seen ks (some k) t h e p g =
      let j = set_end t.last_end k in
      gives stay (record {
        numbered =
            rw (ids-append_keyword ks j, ids-set_end t.last_end k)
              (IsNumbered-append p h.numbered g.numbered);
        shaped =
            append_keyword-AreKeywords r l ks j h.shaped
              (set_end-IsKeyword r l t.last_end k g.shaped);
        named =
            rw (names_of-append_keyword ks j, name-set_end t.last_end k, g.named)
              (AreSeen-push key e h.named);
      })

  keyword_member-Keeps :
      (sub : Sub D) (levels : ℕ) (s0 : State) (key : Token) (x : Seen × Keywords D) (s : State)
      → IsSub r l sub
      → AreKeptKeywords s0 x s
      → Gives s (AreKeptKeywords s0) (keyword_member r sub levels key x s)
  unfolding keyword_member
  keyword_member-Keeps sub levels s0 key (seen, ks) s k h =
      unless_seen-Gives (AreKeptKeywords-IsStable s0) seen key levels (seen, ks)
        (λ s. and_then (parse_keyword r sub key levels s) (new_keyword key seen ks)) s h
        (λ e.
          and_then-Gives (parse_kind-Gives sub (keyword_kind_of key.value) key levels s k refl)
            (λ o t p g. new_keyword-Gives s0 s key seen ks o t h e p g))

  schema_node-IsKept :
      (s : State) (x : Seen × Keywords D) (t : State)
      → AreKeptKeywords s x t
      → IsKeptSchema r
          (suc l)
          s
          (schema (schema_info s.next_id (tok s).range.begin t.last_end) x.1)
          t
  unfolding schema_nodes IsSchema
  schema_node-IsKept s x t h = record {
    numbered = IsNumbered-node s.next_id h.numbered;
    shaped = (h.named.distinct, h.shaped);
  }

  no_keywords-AreKept : (s : State) → AreKeptKeywords s ([], no_keywords) (bump_id s)
  unfolding keywords_nodes AreKeywords
  no_keywords-AreKept s = record {
    numbered = none-IsNumbered (bump_id s);
    shaped = tt;
    named = none_seen;
  }

  Refused-SchemaResult :
      (levels : ℕ) (s : State) (o : Option (SchemaNode D)) (t : State)
      → Refused s o t
      → SchemaResult r levels s o t
  Refused-SchemaResult levels s none t (e, f, i) = f
  Refused-SchemaResult levels s (some n) t (e, f, i) = absurd (none-ne-some n (sym e))

  parse_schema_in-Gives :
      (sub : Sub D) (levels : ℕ) (s : State)
      → IsSub r l sub
      → Gives s (SchemaResult r (suc l) s) (parse_schema_in r sub levels s)
  unfolding parse_schema_in
  parse_schema_in-Gives sub levels s k =
      let p = error_at_token-Move boolean_schema s thence consume-Move _ in
      elim (Bool-cases (is true_word (tok s) || is false_word (tok s))) [
        | inl e ↦
            rw e
              (gives p.step ((consume-Move _).step.fails (error_at_token-fails boolean_schema s)))
        | inr e ↦ elim (Bool-cases (is l_brace (tok s))) [
          | inl f ↦
              rw (e, f)
                (after (bump_id-Step s) (
                  and_then-Gives
                    (parse_object-Gives (AreKeptKeywords-IsStable s) (keyword_member r sub levels)
                      ([], no_keywords) (bump_id s)
                      (λ key x t h. keyword_member-Keeps sub levels s key x t k h)
                      (no_keywords-AreKept s))
                    (λ x t q h. gives stay (schema_node-IsKept s x t h))))
          | inr f ↦
              rw (e, f)
                (weaken (λ o t q h. Refused-SchemaResult (suc l) s o t h)
                  (nothing-Gives (error_at_token-Move expected_schema s)
                    (error_at_token-fails expected_schema s) (skip_value-Gives levels _)))
        ]
      ]

-- A schema parser returns, with a schema as its result or a failure, on every level.
pub parse_schema-Gives :
    {D : Type 0} ⦃d : Double D⦄ (r : Reading D) (levels : ℕ) (s : State)
    → Gives s (SchemaResult r levels s) (parse_schema r levels s)
unfolding parse_schema
parse_schema-Gives r zero s =
    gives (error_at_token-Move schema_too_deep s thence skip_nested-Move _).step
      ((skip_nested-Move _).step.fails (error_at_token-fails schema_too_deep s))
parse_schema-Gives r (suc levels) s =
    parse_schema_in-Gives r levels (parse_schema r levels) (suc levels) s
      (parse_schema-Gives r levels)
