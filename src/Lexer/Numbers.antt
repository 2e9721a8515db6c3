-- ===== src/Lexer/Numbers.antt =====
-- `lexNumber`, RFC 8259 §6.
use json_schema_mlir.Prelude.{not, ◌||◌, ◌==◌, Bytes, if◌then◌else◌}
use json_schema_mlir.Lexer.Source.{SourcePos, Cursor, peek, advance, scan}
use json_schema_mlir.Lexer.Token.{
  number, Lexed, plain, make_error, Message, leading_zeros, digit_after_minus, digit_after_point,
  digit_in_exponent, invalid_in_number, Chars,
}

-- The sign of an exponent.
unfoldable pub skip_sign : Cursor → Cursor
skip_sign cur = if peek cur 0 == b'+' || peek cur 0 == b'-' then advance cur else cur

module _ (ch : Chars) (text : Bytes) (begin : SourcePos) where
  -- `fail`: the rest of the number-like run is swallowed.
  unfoldable pub fail_number : Message → Cursor → Lexed
  fail_number message cur =
      make_error text begin cur.pos message
        (scan (λ c. ch.is_alnum c || c == b'.' || c == b'+' || c == b'-') cur)

  unfoldable pub end_number : Cursor → Lexed
  end_number cur =
      if ch.is_alpha (peek cur 0) || peek cur 0 == b'.'
      then fail_number invalid_in_number cur
      else plain text number begin cur

  unfoldable pub exponent : Cursor → Lexed
  exponent cur =
      if peek cur 0 == b'e' || peek cur 0 == b'E'
      then (let signed = skip_sign (advance cur) in
          if not (ch.is_digit (peek signed 0))
          then fail_number digit_in_exponent signed
          else end_number (scan ch.is_digit signed))
      else end_number cur

  unfoldable pub fraction : Cursor → Lexed
  fraction cur =
      if peek cur 0 == b'.'
      then (let digits = advance cur in
          if not (ch.is_digit (peek digits 0))
          then fail_number digit_after_point digits
          else exponent (scan ch.is_digit digits))
      else exponent cur

  unfoldable pub integer : Cursor → Lexed
  integer cur =
      if peek cur 0 == b'0'
      then (let zero_read = advance cur in
          if ch.is_digit (peek zero_read 0)
          then fail_number leading_zeros zero_read
          else fraction zero_read)
      else if ch.is_digit (peek cur 0)
      then fraction (scan ch.is_digit cur)
      else fail_number digit_after_minus cur

unfoldable pub lex_number : Chars → Bytes → Cursor → Lexed
lex_number ch text cur = integer ch text cur.pos (if peek cur 0 == b'-' then advance cur else cur)
