-- ===== src/Lexer/Token.antt =====
-- Tokens, `stringifyTokenKind`, diagnostics, and what lexing one token gives. Character classes and
-- UTF-8 encoding are LLVM's (llvm/ADT/StringExtras.h, llvm/Support/ConvertUTF.h), and a parameter.
use Prim.Native.String.{String}
use json_schema_mlir.Prelude.{
  ℕ, ◌+◌, ◌<◌, ◌≡◌, Bool, true, ◌||◌, ◌&&◌, leb, Option, some, List, [], ◌∷◌, Bytes,
}
use json_schema_mlir.Lexer.Source.{SourcePos, SourceRange, Cursor, slice}

pub data TokenKind : Type 0 where
  l_brace r_brace l_square r_square colon comma string number true_word false_word null_word eof
        error :
      TokenKind

unfoldable pub stringify_token_kind : TokenKind → String
stringify_token_kind l_brace = "l_brace"
stringify_token_kind r_brace = "r_brace"
stringify_token_kind l_square = "l_square"
stringify_token_kind r_square = "r_square"
stringify_token_kind colon = "colon"
stringify_token_kind comma = "comma"
stringify_token_kind string = "string"
stringify_token_kind number = "number"
stringify_token_kind true_word = "true"
stringify_token_kind false_word = "false"
stringify_token_kind null_word = "null"
stringify_token_kind eof = "eof"
stringify_token_kind error = "error"

pub record Token : Type 0 where
  pub kind : TokenKind
  pub range : SourceRange
  pub spelling : Bytes
  pub value : Bytes

pub data Message : Type 0 where
  comments_not_allowed unexpected_byte unterminated_comment unterminated_string : Message
  control_character expected_hex_digits unpaired_low_surrogate unpaired_high_surrogate : Message
  invalid_escape leading_zeros digit_after_minus digit_after_point digit_in_exponent : Message
  invalid_in_number : Message
  unexpected_character : ℕ → Message
  invalid_literal : Bytes → Message

pub record Diagnostic : Type 0 where
  pub at : SourcePos
  pub message : Message

pub record Lexed : Type 0 where
  pub token : Token
  pub cur : Cursor
  pub diags : List Diagnostic

abbrev pub make_token : Bytes → TokenKind → SourcePos → Cursor → Token
make_token text kind begin cur = record {
  kind = kind;
  range = record { begin = begin; end = cur.pos };
  spelling = slice text begin.offset cur.pos.offset;
  value = [];
}

-- A token with no diagnostic.
abbrev pub plain : Bytes → TokenKind → SourcePos → Cursor → Lexed
plain text kind begin cur = record { token = make_token text kind begin cur; cur = cur; diags = [] }

-- `makeError`: the lexer has failed exactly when it made an error token.
abbrev pub make_error : Bytes → SourcePos → SourcePos → Message → Cursor → Lexed
make_error text begin at message cur = record {
  token = make_token text error begin cur;
  cur = cur;
  diags = record { at = at; message = message } ∷ [];
}

pub record Chars : Type 0 where
  pub is_digit : ℕ → Bool
  pub is_alpha : ℕ → Bool
  pub is_alnum : ℕ → Bool
  pub is_hex_digit : ℕ → Bool
  pub is_print : ℕ → Bool
  pub hex_digit_value : ℕ → ℕ
  pub convert_code_point : ℕ → Option Bytes

-- The value of a lower-case hexadecimal digit.
abbrev pub digit_char : ℕ → ℕ
digit_char n = b'0' + n

-- What LLVM documents of them: the ASCII classes, the digits' values, and that a code point below
-- 0x80 is its own UTF-8 encoding.
pub record AreChars (ch : Chars) : Type 0 where
  pub is_digit_iff : (c : ℕ) → ch.is_digit c ≡ (leb b'0' c && leb c b'9')
  pub is_alpha_iff :
      (c : ℕ) → ch.is_alpha c ≡ (leb b'a' c && leb c b'z' || leb b'A' c && leb c b'Z')
  pub is_alnum_iff : (c : ℕ) → ch.is_alnum c ≡ (ch.is_alpha c || ch.is_digit c)
  pub is_hex_digit_decimal : (n : ℕ) → n < 10 → ch.is_hex_digit (b'0' + n) ≡ true
  pub is_hex_digit_lower : (n : ℕ) → n < 6 → ch.is_hex_digit (b'a' + n) ≡ true
  pub hex_digit_value_decimal : (n : ℕ) → n < 10 → ch.hex_digit_value (b'0' + n) ≡ n
  pub hex_digit_value_lower : (n : ℕ) → n < 6 → ch.hex_digit_value (b'a' + n) ≡ 10 + n
  pub convert_ascii : (n : ℕ) → n < 128 → ch.convert_code_point n ≡ some (n ∷ [])
