-- ===== src/Lexer/Tokenize.antt =====
-- `lexToken`, `tokenize` and the constructor of `Lexer`.
use Prim.Native.Nat.{bit_and}
use json_schema_mlir.Prelude.{
  ℕ, zero, suc, Bool, true, false, ◌||◌, ◌==◌, Option, none, some, List, [], ◌∷◌, ◌++◌, length,
  Bytes, drop, bytes_eq, take, if◌then◌else◌,
}
use json_schema_mlir.Lexer.Source.{Cursor, peek, advance, scan, start_pos}
use json_schema_mlir.Lexer.Token.{
  TokenKind, l_brace, r_brace, l_square, r_square, colon, comma, eof, Token, Lexed, plain,
  make_error, Diagnostic, Chars, comments_not_allowed, unexpected_character, unexpected_byte,
}
use json_schema_mlir.Lexer.Words.{lex_word}
use json_schema_mlir.Lexer.Strings.{lex_string}
use json_schema_mlir.Lexer.Numbers.{lex_number}
use json_schema_mlir.Lexer.Comments.{
  Skipped, skipped, unterminated, skip_comment, skip_comments, skip_whitespace,
}

-- The bytes that go on a multi-byte UTF-8 sequence.
abbrev is_continuation : ℕ → Bool
is_continuation c = bit_and c 0xC0 == 0x80

abbrev pub refused : Bytes → Cursor → Skipped → Lexed
refused text cur (unterminated e) = e
refused text cur (skipped after) = make_error text cur.pos cur.pos comments_not_allowed after

-- `case '/'`.
unfoldable pub lex_slash : Bytes → Cursor → Lexed
lex_slash text cur =
    if peek cur 1 == b'/' || peek cur 1 == b'*'
    then refused text cur (skip_comment text cur)
    else make_error text cur.pos cur.pos (unexpected_character b'/') (advance cur)

-- The end of `lexToken`: a byte that begins no token.
unfoldable pub lex_unexpected : Chars → Bytes → Cursor → Lexed
lex_unexpected ch text cur =
    let c = peek cur 0 in
    let after = scan is_continuation (advance cur) in
    make_error text cur.pos cur.pos
      (if ch.is_print c then unexpected_character c else unexpected_byte) after

-- The `switch (c)` and what follows it, at a byte that is there.
unfoldable pub lex_at : Chars → Bytes → Cursor → Option Lexed
lex_at ch text cur =
    let c = peek cur 0 in
    let punctuation = λ (kind : TokenKind). some (plain text kind cur.pos (advance cur)) in
    if c == b'{'
    then punctuation l_brace
    else if c == b'}'
    then punctuation r_brace
    else if c == b'['
    then punctuation l_square
    else if c == b']'
    then punctuation r_square
    else if c == b':'
    then punctuation colon
    else if c == b','
    then punctuation comma
    else if c == b'"'
    then lex_string ch text cur
    else if c == b'/'
    then some (lex_slash text cur)
    else if c == b'-' || ch.is_digit c
    then some (lex_number ch text cur)
    else if ch.is_alpha c || c == b'_'
    then some (lex_word ch text cur)
    else some (lex_unexpected ch text cur)

abbrev pub lex_here : Chars → Bytes → Bytes → Cursor → Option Lexed
lex_here ch text [] cur = some (plain text eof cur.pos cur)
lex_here ch text (c ∷ cs) cur = lex_at ch text cur

abbrev pub lex_behind : Chars → Bytes → Option Skipped → Option Lexed
lex_behind ch text none = none
lex_behind ch text (some (unterminated e)) = some e
lex_behind ch text (some (skipped cur)) = lex_here ch text cur.rest cur

-- `none` means that the fuel of a loop ran out.
unfoldable pub lex_token : Chars → Bool → Bytes → Cursor → Option Lexed
lex_token ch allow text cur =
    let begin = skip_whitespace cur in
    lex_behind ch text (skip_comments allow text (suc (length begin.rest)) begin)

-- The tokens, and the diagnostics in the order of their emission.
abbrev pub Tokens : Type 0
Tokens = List Token × List Diagnostic

abbrev pub is_eof : TokenKind → Bool
is_eof eof = true
is_eof _ = false

abbrev pub cons_token : Lexed → Option Tokens → Option Tokens
cons_token lexed none = none
cons_token lexed (some (tokens, diags)) = some (lexed.token ∷ tokens, lexed.diags ++ diags)

abbrev pub after_token : (Cursor → Option Tokens) → Option Lexed → Option Tokens
after_token again none = none
after_token again (some lexed) = elim (is_eof lexed.token.kind) [
  | true ↦ some (lexed.token ∷ [], lexed.diags)
  | false ↦ cons_token lexed (again lexed.cur)
]

-- The `do ... while`: the loop ends behind the end-of-file token.
unfoldable pub tokenize_from : Chars → Bool → Bytes → ℕ → Cursor → Option Tokens
tokenize_from ch allow text zero cur = none
tokenize_from ch allow text (suc fuel) cur =
    after_token (tokenize_from ch allow text fuel) (lex_token ch allow text cur)

abbrev bom : Bytes
bom = 0xEF ∷ 0xBB ∷ 0xBF ∷ []

-- The cursor of a new lexer: a UTF-8 byte order mark is passed over.
abbrev pub first_cursor : Bytes → Cursor
first_cursor text =
    if bytes_eq (take 3 text) bom
    then record { rest = drop 3 text; pos = record { offset = 3; line = 1; column = 4 } }
    else record { rest = text; pos = start_pos }

-- Each token but the last consumes a byte.
unfoldable pub tokenize : Chars → Bool → Bytes → Option Tokens
tokenize ch allow text = tokenize_from ch allow text (suc (length text)) (first_cursor text)
