-- ===== src/Lexer/Words.antt =====
-- `lexWord`.
use json_schema_mlir.Prelude.{◌||◌, ◌==◌, [], ◌∷◌, Bytes, bytes_eq, if◌then◌else◌}
use json_schema_mlir.Lexer.Source.{Cursor, scan, slice}
use json_schema_mlir.Lexer.Token.{
  true_word, false_word, null_word, Lexed, plain, make_error, invalid_literal, Chars,
}

abbrev pub true_text : Bytes
true_text = b't' ∷ b'r' ∷ b'u' ∷ b'e' ∷ []

abbrev pub false_text : Bytes
false_text = b'f' ∷ b'a' ∷ b'l' ∷ b's' ∷ b'e' ∷ []

abbrev pub null_text : Bytes
null_text = b'n' ∷ b'u' ∷ b'l' ∷ b'l' ∷ []

unfoldable pub lex_word : Chars → Bytes → Cursor → Lexed
lex_word ch text cur =
    let after = scan (λ c. ch.is_alnum c || c == b'_') cur in
    let word = slice text cur.pos.offset after.pos.offset in
    if bytes_eq word true_text
    then plain text true_word cur.pos after
    else if bytes_eq word false_text
    then plain text false_word cur.pos after
    else if bytes_eq word null_text
    then plain text null_word cur.pos after
    else make_error text cur.pos cur.pos (invalid_literal word) after
