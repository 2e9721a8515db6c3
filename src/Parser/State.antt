-- ===== src/Parser/State.antt =====
-- The token stream and the diagnostics of `Parser`. The tokens from `index` on stand for the index;
-- a read behind the last token gives an end of file.
use json_schema_mlir.Prelude.{
  ℕ, ◌+◌, ◌-◌, ◌^◌, Bool, true, false, ◌||◌, ◌==◌, Option, none, some, List, [], ◌∷◌, ◌++◌, Bytes,
  if◌then◌else◌,
}
use json_schema_mlir.Lexer.Source.{SourcePos}
use json_schema_mlir.Lexer.Token.{
  TokenKind, l_brace, r_brace, l_square, r_square, colon, comma, string, number, true_word,
  false_word, null_word, eof, error, Token,
}

-- What a diagnostic says; the position is where a note points.
pub data ParseMessage : Type 0 where
  expected_close : TokenKind → SourcePos → ParseMessage
  trailing_comma expected_key expected_colon expected_value too_deep : ParseMessage
  expected_separator : TokenKind → ParseMessage
  bad_value : Bytes → ParseMessage
  draft4_bound : Bytes → ParseMessage
  number_out_of_range : ParseMessage
  unknown_type repeated_type repeated_required : Bytes → ParseMessage
  empty_types empty_branches : ParseMessage
  duplicate_key : Bytes → SourcePos → ParseMessage
  schema_too_deep boolean_schema expected_schema expected_document trailing_content : ParseMessage

pub record ParseDiagnostic : Type 0 where
  pub at : SourcePos
  pub message : ParseMessage

pub record State : Type 0 where
  pub rest : List Token
  pub last_end : SourcePos
  pub last_error : ℕ
  pub next_id : ℕ
  pub failed : Bool
  pub diags : List ParseDiagnostic

abbrev no_pos : SourcePos
no_pos = record { offset = 0; line = 1; column = 1 }

abbrev pub behind : Token
behind = record {
  kind = eof;
  range = record { begin = no_pos; end = no_pos };
  spelling = [];
  value = [];
}

-- The state of a new parser; the offset of the last error is `~0u`.
abbrev pub initial : List Token → State
initial tokens = record {
  rest = tokens;
  last_end = no_pos;
  last_error = 2 ^ 32 - 1;
  next_id = 0;
  failed = false;
  diags = [];
}

abbrev pub head_token : List Token → Token
head_token [] = behind
head_token (t ∷ ts) = t

abbrev pub tok : State → Token
tok s = head_token s.rest

abbrev pub kind_id : TokenKind → ℕ
kind_id l_brace = 0
kind_id r_brace = 1
kind_id l_square = 2
kind_id r_square = 3
kind_id colon = 4
kind_id comma = 5
kind_id string = 6
kind_id number = 7
kind_id true_word = 8
kind_id false_word = 9
kind_id null_word = 10
kind_id eof = 11
kind_id error = 12

-- `token.is(kind)`.
unfoldable pub is : TokenKind → Token → Bool
is kind t = kind_id t.kind == kind_id kind

abbrev second : List Token → Option Token
second (t ∷ u ∷ ts) = some u
second _ = none

abbrev is_some_of : TokenKind → Option Token → Bool
is_some_of kind none = false
is_some_of kind (some t) = is kind t

-- `peekIsClose`.
unfoldable pub peek_is_close : State → Bool
peek_is_close s = is_some_of r_square (second s.rest)

abbrev pub behind_first : List Token → List Token
behind_first [] = []
behind_first (t ∷ ts) = ts

unfoldable pub consume : State → State
consume s =
    if is eof (tok s)
    then s
    else record s { last_end = (tok s).range.end; rest = behind_first s.rest }

-- `error`.
unfoldable pub report : SourcePos → ParseMessage → State → State
report at message s = record s {
  failed = true;
  last_error = at.offset;
  diags = s.diags ++ (record { at = at; message = message } ∷ []);
}

abbrev pub fail : State → State
fail s = record s { failed = true }

unfoldable pub error_at_token : ParseMessage → State → State
error_at_token message s =
    if is error (tok s) || (tok s).range.begin.offset == s.last_error
    then fail s
    else report (tok s).range.begin message (fail s)

unfoldable pub error_unclosed : TokenKind → SourcePos → State → State
error_unclosed close open_pos s =
    if (tok s).range.begin.offset == s.last_error
    then fail s
    else report s.last_end (expected_close close open_pos) s

-- `nextId++`.
abbrev pub bump_id : State → State
bump_id s = record s { next_id = s.next_id + 1 }
