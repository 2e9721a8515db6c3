-- ===== src/Parser/Sound/Schemas.antt =====
-- What schemas have read.
use json_schema_mlir.Prelude.{
  ℕ, zero, suc, refl, arith, ◌||◌, Bool-cases, inl, inr, Option, none, some, List, [],
}
use json_schema_mlir.Float.{Double}
use json_schema_mlir.Lexer.Source.{SourcePos}
use json_schema_mlir.Lexer.Token.{l_brace, l_square, true_word, false_word, Token}
use json_schema_mlir.Ast.{
  KeywordKind, type_kind, properties_kind, required_kind, all_of_kind, minimum_kind, maximum_kind,
  exclusive_minimum_kind, exclusive_maximum_kind, multiple_of_kind, min_length_kind,
  max_length_kind, pattern_kind, format_kind, annotation_kind, unknown_kind, SchemaNode, Keywords,
  no_keywords, KeywordNode, no_properties, Branches, no_branches,
}
use json_schema_mlir.Parser.State.{
  State, tok, is, peek_is_close, report, bump_id, bad_value, empty_branches, schema_too_deep,
  boolean_schema, expected_schema, duplicate_key,
}
use json_schema_mlir.Parser.Loops.{Parse, and_then}
use json_schema_mlir.Parser.Values.{Reading, Seen, seen_at, when_new, unless_seen}
use json_schema_mlir.Parser.Names.{keyword_kind_of}
use json_schema_mlir.Parser.Schemas.{
  Sub, new_property, property_member, parse_properties_keyword, push_branch, branch_element,
  parse_all_of_keyword, parse_kind, parse_keyword, new_keyword, keyword_member, parse_schema_in,
  parse_schema,
}
use json_schema_mlir.Parser.Grammar.{IsValue}
use json_schema_mlir.Parser.Steps.{
  stay, ◌thence◌, consume-Move, report-Move, error_at_token-Move, bump_id-Step,
}
use json_schema_mlir.Parser.Steps.Moves.{
  Gives, gives, and_then-Gives, after, weaken, skip_nested-Move,
}
use json_schema_mlir.Parser.Steps.Separators.{report-fails, error_at_token-fails}
use json_schema_mlir.Parser.Steps.Values.{nothing-Gives, skip_value-Gives}
use json_schema_mlir.Parser.Sound.{Reads, fails-Reads, ReadsEach, parse_object-Reads}
use json_schema_mlir.Parser.Sound.Keywords.{depth_of, IsKeywordValue}
use json_schema_mlir.Parser.Sound.Leaves.{
  report_if-Reads, bad_keyword-Reads, array_then-Reads, parse_type_keyword-Reads,
  parse_required_keyword-Reads, parse_string_keyword-Reads, parse_annotation_keyword-Reads,
  parse_unknown_keyword-Reads, parse_number_keyword-Reads, parse_length_keyword-Reads,
}

-- A key seen before fails the parse.
when_new-Reads :
    {L : Type 0} (X : List Token → List Token → Type 0) (o : Option SourcePos) (key : Token)
    (levels : ℕ) (l : L) (first : Parse L) (s : State)
    → Gives s (Reads X s) (first s)
    → Gives s (Reads X s) (when_new o key levels l first s)
when_new-Reads X none key levels l first s k = k
when_new-Reads X (some at) key levels l first s k =
    let m = duplicate_key key.value at in
    let t = report key.range.begin m s in
    after (report-Move key.range.begin m s).step (
      and_then-Gives (skip_value-Gives levels t) (λ u v p i.
        let f = p.fails (report-fails key.range.begin m s) in
        gives stay (λ h. absurd (ground arith))))

module _ {D : Type 0} ⦃d : Double D⦄ (l : ℕ) (sub : Sub D)
    (k : (s : State) → Gives s (Reads (IsValue (depth_of l)) s) (sub s)) where
  property_member-Reads :
      (levels : ℕ) (name : Token)
      → ReadsEach (IsValue (depth_of l)) (property_member sub levels name)
  unfolding property_member unless_seen
  property_member-Reads levels name (seen, ps) s =
      when_new-Reads (IsValue (depth_of l)) (seen_at seen name.value) name levels (seen, ps)
        (λ s. and_then (sub (bump_id s)) (new_property name seen ps s.next_id)) s
        (after (bump_id-Step s) (and_then-Gives (k (bump_id s)) (λ o t p g. gives stay g)))

  pub parse_properties_keyword-Reads :
      (key : Token) (levels : ℕ) (s : State)
      → Gives s (Reads (IsKeywordValue l) s) (parse_properties_keyword sub key levels s)
  unfolding parse_properties_keyword
  parse_properties_keyword-Reads key levels s = elim (Bool-cases (is l_brace (tok s))) [
    | inl e ↦ rw e (
        after (bump_id-Step s) (
          and_then-Gives
            (parse_object-Reads (property_member sub levels) ([], no_properties) (bump_id s)
              (property_member-Reads levels) e)
            (λ x t p g. gives stay (λ f. inr (inl (g f))))))
    | inr e ↦ rw e (bad_keyword-Reads l (bad_value key.value) levels s s stay refl)
  ]

  push_branch-Reads :
      (s : State) (bs : Branches D) (o : Option (SchemaNode D)) (t : State)
      → Reads (IsValue (depth_of l)) s o t
      → Gives t (Reads (IsValue (depth_of l)) s) (push_branch bs o t)
  push_branch-Reads s bs none t g = gives stay g
  push_branch-Reads s bs (some b) t g = gives stay g

  branch_element-Reads : ReadsEach (IsValue (depth_of l)) (branch_element sub)
  branch_element-Reads bs s = and_then-Gives (k s) (λ o t p g. push_branch-Reads s bs o t g)

  pub parse_all_of_keyword-Reads :
      (key : Token) (levels : ℕ) (s : State)
      → Gives s (Reads (IsKeywordValue l) s) (parse_all_of_keyword sub key levels s)
  unfolding parse_all_of_keyword
  parse_all_of_keyword-Reads key levels s = elim (Bool-cases (is l_square (tok s))) [
    | inl e ↦ rw e (
        after (bump_id-Step s) (
          array_then-Reads l (branch_element sub) no_branches _ (bump_id s) branch_element-Reads e
            (λ bs t. report_if-Reads (peek_is_close s) _ (tok s).range.begin empty_branches t)))
    | inr e ↦ rw e (bad_keyword-Reads l (bad_value key.value) levels s s stay refl)
  ]

  module _ (r : Reading D) where
    parse_kind-Reads :
        (kind : KeywordKind) (key : Token) (s : State)
        → Gives s (Reads (IsKeywordValue l) s) (parse_kind r sub kind key (suc l) s)
    unfolding parse_kind
    parse_kind-Reads type_kind key s = parse_type_keyword-Reads l key (suc l) s
    parse_kind-Reads properties_kind key s = parse_properties_keyword-Reads key (suc l) s
    parse_kind-Reads required_kind key s = parse_required_keyword-Reads l key (suc l) s
    parse_kind-Reads all_of_kind key s = parse_all_of_keyword-Reads key (suc l) s
    parse_kind-Reads minimum_kind key s = parse_number_keyword-Reads r l _ key (suc l) s
    parse_kind-Reads maximum_kind key s = parse_number_keyword-Reads r l _ key (suc l) s
    parse_kind-Reads exclusive_minimum_kind key s = parse_number_keyword-Reads r l _ key (suc l) s
    parse_kind-Reads exclusive_maximum_kind key s = parse_number_keyword-Reads r l _ key (suc l) s
    parse_kind-Reads multiple_of_kind key s = parse_number_keyword-Reads r l _ key (suc l) s
    parse_kind-Reads min_length_kind key s = parse_length_keyword-Reads r l _ key (suc l) s
    parse_kind-Reads max_length_kind key s = parse_length_keyword-Reads r l _ key (suc l) s
    parse_kind-Reads pattern_kind key s = parse_string_keyword-Reads l _ key (suc l) s
    parse_kind-Reads format_kind key s = parse_string_keyword-Reads l _ key (suc l) s
    parse_kind-Reads annotation_kind key s = parse_annotation_keyword-Reads l key s
    parse_kind-Reads unknown_kind key s = parse_unknown_keyword-Reads l key s

    new_keyword-Reads :
        (key : Token) (seen : Seen) (ks : Keywords D) (s : State) (o : Option (KeywordNode D))
        (t : State)
        → Reads (IsKeywordValue l) s o t
        → Gives t (Reads (IsKeywordValue l) s) (new_keyword key seen ks o t)
    new_keyword-Reads key seen ks s none t g = gives stay g
    new_keyword-Reads key seen ks s (some n) t g = gives stay g

    keyword_member-Reads :
        (key : Token) → ReadsEach (IsKeywordValue l) (keyword_member r sub (suc l) key)
    unfolding keyword_member unless_seen
    keyword_member-Reads key (seen, ks) s =
        when_new-Reads (IsKeywordValue l) (seen_at seen key.value) key (suc l) (seen, ks)
          (λ s. and_then (parse_keyword r sub key (suc l) s) (new_keyword key seen ks)) s
          (and_then-Gives (parse_kind-Reads (keyword_kind_of key.value) key s)
            (λ o t p g. new_keyword-Reads key seen ks s o t g))

    pub parse_schema_in-Reads :
        (s : State)
        → Gives s (Reads (IsValue (depth_of (suc l))) s) (parse_schema_in r sub (suc l) s)
    unfolding parse_schema_in
    parse_schema_in-Reads s =
        let p = error_at_token-Move boolean_schema s thence consume-Move _ in
        elim (Bool-cases (is true_word (tok s) || is false_word (tok s))) [
          | inl e ↦ rw e (
              fails-Reads (IsValue (depth_of (suc l))) p
                ((consume-Move _).step.fails (error_at_token-fails boolean_schema s)))
          | inr e ↦ elim (Bool-cases (is l_brace (tok s))) [
            | inl f ↦
                rw (e, f)
                  (after (bump_id-Step s) (
                    and_then-Gives
                      (parse_object-Reads (keyword_member r sub (suc l)) ([], no_keywords)
                        (bump_id s) keyword_member-Reads f)
                      (λ x t q g. gives stay (λ h. inr (inl (g h))))))
            | inr f ↦
                rw (e, f)
                  (weaken (λ o t q (z, h, i) g. absurd (ground arith))
                    (nothing-Gives (error_at_token-Move expected_schema s)
                      (error_at_token-fails expected_schema s) (skip_value-Gives (suc l) _)))
          ]
        ]

pub parse_schema-Reads :
    {D : Type 0} ⦃d : Double D⦄ (r : Reading D) (levels : ℕ) (s : State)
    → Gives s (Reads (IsValue (depth_of levels)) s) (parse_schema r levels s)
unfolding parse_schema
parse_schema-Reads r zero s =
    fails-Reads (IsValue zero) (error_at_token-Move schema_too_deep s thence skip_nested-Move _)
      ((skip_nested-Move _).step.fails (error_at_token-fails schema_too_deep s))
parse_schema-Reads r (suc levels) s =
    parse_schema_in-Reads levels (parse_schema r levels) (parse_schema-Reads r levels) r s
