-- ===== src/Tests/Parsing.antt =====
-- Witnesses for the parser, on the tokens of a small schema.
use json_schema_mlir.Prelude.{
  ◌↔◌, inl, inr, ℕ, ◌+◌, ◌-◌, ◌*◌, ◌^◌, ◌≤◌, ◌<◌, ◌≡◌, refl, arith, ℤ, pos, true, false, ◌&&◌, leb,
  Option, none, some, List, [], ◌∷◌, length, Bytes, bytes_eq, All, if◌then◌else◌,
}
use json_schema_mlir.Float.Halves.{Halves, whole, halves_double}
use json_schema_mlir.Lexer.Source.{SourcePos}
use json_schema_mlir.Lexer.Token.{
  l_square, r_square, comma, null_word, TokenKind, l_brace, r_brace, colon, string, number, eof,
  error, Token,
}
use json_schema_mlir.Ast.{
  min_length_kind, SchemaNode, schema, keyword_then, no_keywords, length_keyword,
}
use json_schema_mlir.Parser.State.{
  State, bad_value, initial, is, consume, report, error_at_token, error_unclosed,
}
use json_schema_mlir.Parser.Loops.{
  skip_nested, nested_from, separator_loop, parse_separator, object_member, object_loop,
  parse_object,
}
use json_schema_mlir.Parser.Values.{
  Reading, skip_kind, skip_value, bad_value_at, parse_number, seen_at, unless_seen, max_depth,
}
use json_schema_mlir.Parser.Names.{kind_in}
use json_schema_mlir.Parser.Keywords.{set_end, is_bad_length, parse_length_keyword}
use json_schema_mlir.Parser.Schemas.{
  ParsedSchema, parse_kind, keyword_member, parse_schema_in, parse_schema, run_document,
  parse_document,
}
use json_schema_mlir.Ast.{append_keyword}
use json_schema_mlir.Parser.Numbers.{Ascends, from}
use json_schema_mlir.Parser.Shape.{IsSchema}
use json_schema_mlir.Parser.Trees.{schema_ids}
use json_schema_mlir.Parser.Document.{
  parse_document-some, ids-parse_document, parse_document-IsSchema, parse_document-reports,
}
use json_schema_mlir.Parser.Grammar.{
  atom, one, no_members, last_element, element_then, elements, IsValue,
}
use json_schema_mlir.Parser.Complete.Values.{IsSkipped, skip_value_lem}
use json_schema_mlir.Lexer.Moves.Ends.{EndsAtEof}
use json_schema_mlir.Parser.Sound.Document.{IsValue-parse_document}
use json_schema_mlir.Parser.Stream.{run_document-Behind}

-- The decimal digits of a number.
abbrev pub read_digits : ℕ → Bytes → Option Halves
read_digits n [] = some (whole n)
read_digits n (c ∷ cs) =
    let rest = read_digits (10 * n + (c - b'0')) cs in
    if leb b'0' c && leb c b'9' then rest else none

abbrev pub to_integer : Halves → ℤ
to_integer (whole n) = pos n
to_integer _ = pos 0

abbrev pub reading : Reading Halves
reading = record { as_double = read_digits 0; max_exact = whole (2 ^ 53); to_int64 = to_integer }

abbrev pub at : ℕ → SourcePos
at n = record { offset = n; line = 1; column = n + 1 }

abbrev pub token : TokenKind → ℕ → ℕ → Bytes → Bytes → Token
token kind m n spelling value = record {
  kind = kind;
  range = record { begin = at m; end = at n };
  spelling = spelling;
  value = value;
}

abbrev key : Bytes
key = b'm' ∷ b'i' ∷ b'n' ∷ b'L' ∷ b'e' ∷ b'n' ∷ b'g' ∷ b't' ∷ b'h' ∷ []

-- {"minLength":20}
abbrev tokens : List Token
tokens =
    token l_brace 0 1 (b'{' ∷ []) []
    ∷ token string 1 12 [] key
    ∷ token colon 12 13 (b':' ∷ []) []
    ∷ token number 13 15 (b'2' ∷ b'0' ∷ []) []
    ∷ token r_brace 15 16 (b'}' ∷ []) []
    ∷ token eof 16 16 [] []
    ∷ []

abbrev tree : SchemaNode Halves
tree =
    schema record { id = 0; range = record { begin = at 0; end = at 16 } }
      (keyword_then
        (length_keyword
          record {
            id = 1;
            range = record { begin = at 1; end = at 15 };
            keyword_kind = min_length_kind;
            name = key;
            key_range = record { begin = at 1; end = at 12 };
          }
          (pos 20))
        no_keywords)

abbrev outcome : ParsedSchema Halves
outcome = record { root = some tree; num_nodes = 2; failed = false; diags = [] }

tokens_parsed : parse_document reading tokens ≡ some outcome
unfolding parse_document run_document parse_schema parse_schema_in keyword_member parse_kind kind_in
    parse_length_keyword parse_number is_bad_length set_end append_keyword unless_seen seen_at
    parse_object object_loop object_member parse_separator separator_loop consume is bytes_eq
tokens_parsed = refl

parse_document-some_example : (p : ParsedSchema Halves) × (parse_document reading tokens ≡ some p)
parse_document-some_example = parse_document-some reading tokens

ids-parse_document_example :
    Ascends 0 (schema_ids tree) 2 × (outcome.failed ≡ false → schema_ids tree ≡ from 0 2)
ids-parse_document_example = ids-parse_document reading tokens outcome tree tokens_parsed refl

parse_document-IsSchema_example : IsSchema reading max_depth tree
parse_document-IsSchema_example =
    parse_document-IsSchema reading tokens outcome tree tokens_parsed refl

-- {"minLength":
abbrev unclosed : List Token
unclosed =
    token l_brace 0 1 (b'{' ∷ []) []
    ∷ token string 1 12 [] key
    ∷ token colon 12 13 (b':' ∷ []) []
    ∷ token eof 13 13 [] []
    ∷ []

abbrev end_state : State
end_state = record {
  rest = token eof 16 16 [] [] ∷ [];
  last_end = at 16;
  last_error = 2 ^ 32 - 1;
  next_id = 2;
  failed = false;
  diags = [];
}

run_tokens : run_document reading (initial tokens) ≡ some (some tree, end_state)
unfolding run_document parse_schema parse_schema_in keyword_member parse_kind kind_in
    parse_length_keyword parse_number is_bad_length set_end append_keyword unless_seen seen_at
    parse_object object_loop object_member parse_separator separator_loop consume is bytes_eq
run_tokens = refl

run_document-Behind_example :
    (0 < 1) × (1 ≤ 6) × (end_state.failed ≡ false → length end_state.rest ≡ 1)
run_document-Behind_example =
    run_document-Behind reading tokens (some tree) end_state
      (refl, (refl, (refl, (refl, (refl, refl))))) run_tokens

abbrev partial : ParsedSchema Halves
partial = record {
  root = some (schema record { id = 0; range = record { begin = at 0; end = at 13 } } no_keywords);
  num_nodes = 2;
  failed = true;
  diags = record { at = at 13; message = bad_value key } ∷ [];
}

unclosed_parsed : parse_document reading unclosed ≡ some partial
unfolding parse_document run_document parse_schema parse_schema_in keyword_member parse_kind kind_in
    parse_length_keyword bad_value_at skip_value skip_kind set_end append_keyword unless_seen
    seen_at parse_object object_loop object_member parse_separator separator_loop consume is
    bytes_eq error_at_token error_unclosed report
unclosed_parsed = refl

unclosed_lexed : All (λ t. is error t ≡ false) unclosed
unfolding is
unclosed_lexed = (refl, (refl, (refl, (refl, tt))))

parse_document-reports_example : 0 < 1
parse_document-reports_example =
    parse_document-reports reading unclosed partial unclosed_lexed
      (omega arith, (omega arith, (omega arith, (omega arith, tt)))) unclosed_parsed refl

-- [null,{}]
abbrev values : List Token
values =
    token l_square 0 1 (b'[' ∷ []) []
    ∷ token null_word 1 5 [] []
    ∷ token comma 5 6 (b',' ∷ []) []
    ∷ token l_brace 6 7 (b'{' ∷ []) []
    ∷ token r_brace 7 8 (b'}' ∷ []) []
    ∷ token r_square 8 9 (b']' ∷ []) []
    ∷ token eof 9 9 [] []
    ∷ []

skip_value_lem_example :
    IsSkipped 2 (initial values) (token eof 9 9 [] [] ∷ [])
    ↔ IsValue 2 values (token eof 9 9 [] [] ∷ [])
skip_value_lem_example = skip_value_lem 2 (initial values) (token eof 9 9 [] [] ∷ []) refl

values-IsValue : IsValue 2 values (token eof 9 9 [] [] ∷ [])
unfolding is
values-IsValue = inr (
    inr (
      elements (one refl) (
        element_then (inl (atom refl)) (one refl)
          (last_element (inr (inl (no_members (one refl) (one refl)))) (one refl)))))

-- A `}` where the nesting limit is reached: the unsigned depth falls below 0, and everything is
-- skipped.
abbrev stray : List Token
stray =
    token r_brace 0 1 (b'}' ∷ []) []
    ∷ token comma 1 2 (b',' ∷ []) []
    ∷ token string 2 5 [] (b'a' ∷ [])
    ∷ token eof 5 5 [] []
    ∷ []

skip_stray : (skip_nested (initial stray)).rest ≡ token eof 5 5 [] [] ∷ []
unfolding skip_nested nested_from is
skip_stray = refl

tokens-EndsAtEof : EndsAtEof tokens
tokens-EndsAtEof = (refl, (refl, (refl, (refl, (refl, refl)))))

IsValue-parse_document_example : (e : Token) × IsValue 256 tokens (e ∷ [])
IsValue-parse_document_example =
    IsValue-parse_document reading tokens outcome tokens-EndsAtEof tokens_parsed refl
