-- ===== src/Parser/Sound/Leaves.antt =====
-- What the keywords with no schema inside have read.
use json_schema_mlir.Prelude.{
  ℕ, suc, ◌-◌, ◌≡◌, refl, arith, Bool, true, false, Bool-cases, inl, inr, Option, none, some, [],
  Bytes, if◌then◌else◌,
}
use mathlib.Core.Path.{subst}
use json_schema_mlir.Float.{Double}
use json_schema_mlir.Lexer.Source.{SourcePos}
use json_schema_mlir.Lexer.Token.{l_square, string, number, Token}
use json_schema_mlir.Ast.{KeywordKind, KeywordInfo, KeywordNode}
use json_schema_mlir.Ast.Names.{symbolize_json_type}
use json_schema_mlir.Parser.State.{
  ParseMessage, State, tok, is, peek_is_close, consume, report, bump_id, bad_value, empty_types,
  number_out_of_range,
}
use json_schema_mlir.Parser.Loops.{Parse, and_then, parse_array}
use json_schema_mlir.Parser.Values.{bad_value_at, Reading, finite_of, number_read, parse_number}
use json_schema_mlir.Parser.Keywords.{
  new_info, add_type, type_element, required_element, parse_type_keyword, parse_required_keyword,
  parse_string_keyword, parse_annotation_keyword, parse_unknown_keyword, number_node,
  parse_number_keyword, is_bad_length, length_node, parse_length_keyword,
}
use json_schema_mlir.Parser.Grammar.{IsValue}
use json_schema_mlir.Parser.Steps.{Step, stay, was_quiet, consume-Move, report-Move, bump_id-Step}
use json_schema_mlir.Parser.Steps.Moves.{Gives, gives, and_then-Gives, after, weaken}
use json_schema_mlir.Parser.Steps.Separators.{report-fails}
use json_schema_mlir.Parser.Sound.{Reads, ReadsEach, parse_array-Reads}
use json_schema_mlir.Parser.Sound.Keywords.{
  depth_of, scalar-IsValue, IsKeywordValue, skip_keyword-Reads, bad_value_at-Reads, Unmoved,
  then-Reads, add_known-Reads, string_then, report-Reads, type_element-Reads,
  required_element-Reads,
}

-- An error about an array comes behind it.
pub report_if-Reads :
    {L : Type 0} (b : Bool) (l : L) (at : SourcePos) (m : ParseMessage) (s : State)
    → Gives s (Reads Unmoved s) (some (l, if b then report at m s else s))
report_if-Reads true l at m s = report-Reads l at m s
report_if-Reads false l at m s = gives stay (λ f. refl)

-- An array whose elements are values one level deeper.
pub array_then-Reads :
    {A B : Type 0} (l : ℕ) (element : A → Parse A) (a : A) (f : A → Parse B) (s : State)
    → ReadsEach (IsValue (depth_of l)) element
    → is l_square (tok s) ≡ true
    → ((b : A) (t : State) → Gives t (Reads Unmoved t) (f b t))
    → Gives s (Reads (IsKeywordValue l) s) (and_then (parse_array element a s) f)
array_then-Reads l element a f s k e g =
    and_then-Gives (parse_array-Reads element a s k e) (λ b t p h.
      weaken
        (λ c u q j z.
          subst (IsKeywordValue l s.rest) (j z)
            (inr (inr (h (was_quiet t.failed u.failed q.fails z)))))
        (g b t))

module _ {D : Type 0} (l : ℕ) where
  pub bad_keyword-Reads :
      (m : ParseMessage) (levels : ℕ) (s t : State)
      → Step s t
      → t.rest ≡ s.rest
      → Gives {A = Option (KeywordNode D)} s (Reads (IsKeywordValue l) s) (bad_value_at m levels t)
  bad_keyword-Reads m levels s t p e =
      after p (bad_value_at-Reads (λ xs ys. IsKeywordValue l s.rest ys) m levels t)

  pub parse_type_keyword-Reads :
      (key : Token) (levels : ℕ) (s : State)
      → Gives s (Reads (IsKeywordValue l) s) (parse_type_keyword {D = D} key levels s)
  unfolding parse_type_keyword add_type
  parse_type_keyword-Reads key levels s =
      let b = bump_id-Step s in
      let t = bump_id s in
      elim (Bool-cases (is string (tok t))) [
        | inl p ↦ rw p (
            after b (
              and_then-Gives
                (string_then (suc (depth_of l)) t p
                  (add_known-Reads [] (tok t) (symbolize_json_type (tok t).value) (consume t)))
                (λ types u q g. gives stay g)))
        | inr p ↦ elim (Bool-cases (is l_square (tok t))) [
          | inl q ↦
              rw (p, q)
                (after b (
                  array_then-Reads l (type_element key (levels - 1)) [] _ t
                    (type_element-Reads (depth_of l) key (levels - 1)) q
                    (λ types u.
                      report_if-Reads (peek_is_close t) _ (tok t).range.begin empty_types u)))
          | inr q ↦ rw (p, q) (bad_keyword-Reads (bad_value key.value) levels s t b refl)
        ]
      ]

  pub parse_required_keyword-Reads :
      (key : Token) (levels : ℕ) (s : State)
      → Gives s (Reads (IsKeywordValue l) s) (parse_required_keyword {D = D} key levels s)
  unfolding parse_required_keyword
  parse_required_keyword-Reads key levels s = elim (Bool-cases (is l_square (tok s))) [
    | inl p ↦ rw p (
        after (bump_id-Step s) (
          array_then-Reads l (required_element key (levels - 1)) [] _ (bump_id s)
            (required_element-Reads (depth_of l) key (levels - 1)) p
            (λ names u. gives stay (λ f. refl))))
    | inr p ↦ rw p (bad_keyword-Reads (bad_value key.value) levels s s stay refl)
  ]

  pub parse_string_keyword-Reads :
      (kind : KeywordKind) (key : Token) (levels : ℕ) (s : State)
      → Gives s (Reads (IsKeywordValue l) s) (parse_string_keyword {D = D} kind key levels s)
  unfolding parse_string_keyword
  parse_string_keyword-Reads kind key levels s =
      let b = bump_id-Step s in
      elim (Bool-cases (is string (tok s))) [
        | inl p ↦
            rw p (after b (string_then (suc (depth_of l)) (bump_id s) p (gives stay (λ f. refl))))
        | inr p ↦ rw p (bad_keyword-Reads (bad_value key.value) levels s (bump_id s) b refl)
      ]

  pub parse_annotation_keyword-Reads :
      (key : Token) (s : State)
      → Gives s (Reads (IsKeywordValue l) s) (parse_annotation_keyword {D = D} key (suc l) s)
  unfolding parse_annotation_keyword
  parse_annotation_keyword-Reads key s =
      let b = bump_id-Step s in
      elim (Bool-cases (is string (tok s))) [
        | inl p ↦
            rw p (after b (string_then (suc (depth_of l)) (bump_id s) p (gives stay (λ f. refl))))
        | inr p ↦
            rw p (
              after b (and_then-Gives (skip_keyword-Reads l (bump_id s)) (λ u t q g. gives stay g)))
      ]

  pub parse_unknown_keyword-Reads :
      (key : Token) (s : State)
      → Gives s (Reads (IsKeywordValue l) s) (parse_unknown_keyword {D = D} key (suc l) s)
  unfolding parse_unknown_keyword
  parse_unknown_keyword-Reads key s =
      after (bump_id-Step s)
        (and_then-Gives (skip_keyword-Reads l (bump_id s)) (λ u t q g. gives stay g))

module _ {D : Type 0} ⦃d : Double D⦄ (r : Reading D) (l : ℕ) where
  number_read-Reads :
      (t : Token) (o : Option D) (s : State) → Gives s (Reads Unmoved s) (number_read r t o s)
  number_read-Reads t none s = report-Reads none t.range.begin number_out_of_range s
  number_read-Reads t (some x) s = gives stay (λ f. refl)

  parse_number-Reads :
      (key : Token) (levels : ℕ) (s : State)
      → Gives s (Reads (IsKeywordValue l) s) (parse_number r key levels s)
  unfolding parse_number
  parse_number-Reads key levels s = elim (Bool-cases (is number (tok s))) [
    | inl e ↦ rw e (
        then-Reads (IsKeywordValue l) (consume-Move s).step
          (λ f. scalar-IsValue (suc (depth_of l)) s (ground arith))
          (number_read-Reads (tok s) (finite_of r (r.as_double (tok s).spelling)) (consume s)))
    | inr e ↦ rw e (bad_value_at-Reads (IsKeywordValue l) _ levels s)
  ]

  number_node-Reads :
      (node : KeywordInfo) (s : State) (o : Option (D × Bytes)) (t : State)
      → Reads (IsKeywordValue l) s o t
      → Gives t (Reads (IsKeywordValue l) s) (number_node r node o t)
  number_node-Reads node s none t g = gives stay g
  number_node-Reads node s (some (x, spelling)) t g = gives stay g

  pub parse_number_keyword-Reads :
      (kind : KeywordKind) (key : Token) (levels : ℕ) (s : State)
      → Gives s (Reads (IsKeywordValue l) s) (parse_number_keyword r kind key levels s)
  unfolding parse_number_keyword
  parse_number_keyword-Reads kind key levels s = after (bump_id-Step s) (
      and_then-Gives (parse_number-Reads key levels (bump_id s))
        (λ o t p g. number_node-Reads (new_info kind key s) s o t g))

  length_node-Reads :
      (node : KeywordInfo) (at : SourcePos) (s : State) (o : Option (D × Bytes)) (t : State)
      → Reads (IsKeywordValue l) s o t
      → Gives t (Reads (IsKeywordValue l) s) (length_node r node at o t)
  length_node-Reads node at s none t g = gives stay g
  length_node-Reads node at s (some (x, spelling)) t g = elim (Bool-cases (is_bad_length r x)) [
    | inl e ↦ rw e (
        gives (report-Move at (bad_value node.name) t).step
          (λ f. let h = report-fails at (bad_value node.name) t in absurd (ground arith)))
    | inr e ↦ rw e (gives stay g)
  ]

  pub parse_length_keyword-Reads :
      (kind : KeywordKind) (key : Token) (levels : ℕ) (s : State)
      → Gives s (Reads (IsKeywordValue l) s) (parse_length_keyword r kind key levels s)
  unfolding parse_length_keyword
  parse_length_keyword-Reads kind key levels s =
      let b = bump_id-Step s in
      elim (Bool-cases (is number (tok (bump_id s)))) [
        | inl e ↦ rw e (
            after b (
              and_then-Gives (parse_number-Reads key levels (bump_id s))
                (λ o t p g. length_node-Reads (new_info kind key s) (tok s).range.begin s o t g)))
        | inr e ↦ rw e (bad_keyword-Reads l (bad_value key.value) levels s (bump_id s) b refl)
      ]
