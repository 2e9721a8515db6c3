-- ===== src/Lexer/Moves/Tokens.antt =====
-- What is kept by `advance`, at comments and at the start of a token.
use json_schema_mlir.Prelude.{
  suc, Bool, true, false, ◌&&◌, ◌||◌, ◌==◌, Option, some, [], ◌∷◌, length, Bytes, ◌≡◌, refl, arith,
  if◌then◌else◌, get_or,
}
use json_schema_mlir.Lexer.Source.{SourcePos, Cursor, advance, step_pos, peek}
use json_schema_mlir.Lexer.Token.{
  TokenKind, l_brace, r_brace, l_square, r_square, colon, comma, Lexed, plain, Chars, AreChars,
}
use json_schema_mlir.Lexer.Strings.{StringState, opened, end_string, lex_string}
use json_schema_mlir.Lexer.Numbers.{lex_number}
use json_schema_mlir.Lexer.Words.{lex_word}
use json_schema_mlir.Lexer.Comments.{
  block_from, closed, Skipped, skipped, unterminated, skip_comment,
}
use json_schema_mlir.Lexer.Tokenize.{lex_slash, refused, lex_unexpected, lex_at}
use json_schema_mlir.Lexer.Moves.{
  IsKept, at_bytes, step_bytes, scan-keeps, if-Lexed, lex_word-keeps, lex_number-keeps,
}
use json_schema_mlir.Lexer.Moves.Strings.{
  AtMost, AtMost-IsKept, string_loop-total, string_loop-keeps,
}

-- A token comes out, and `I` holds behind it.
abbrev pub Gives : (Cursor → Type 0) → Option Lexed → Type 0
Gives I o = (x : Lexed) × (o ≡ some x) × I x.cur

if-Gives :
    (I : Cursor → Type 0) (b : Bool) (x y : Option Lexed)
    → (b ≡ true → Gives I x)
    → (b ≡ false → Gives I y)
    → Gives I (if b then x else y)
if-Gives I true x y p q = p refl
if-Gives I false x y p q = q refl

abbrev pub AfterSkip : (Cursor → Type 0) → Skipped → Type 0
AfterSkip I (skipped cur) = I cur
AfterSkip I (unterminated e) = I e.cur

if-Skipped :
    (I : Cursor → Type 0) (b : Bool) (x y : Skipped)
    → AfterSkip I x
    → AfterSkip I y
    → AfterSkip I (if b then x else y)
if-Skipped I true x y p q = p
if-Skipped I false x y p q = q

if-block :
    (I : Cursor → Type 0) (b : Bool) (x y : Bool × Cursor)
    → I x.1
    → I y.1
    → I (if b then x else y).1
if-block I true x y p q = p
if-block I false x y p q = q

module _ {I : Cursor → Type 0} (kept : IsKept I) where
  block_from-keeps : (bs : Bytes) (p : SourcePos) → I (at_bytes bs p) → I (block_from bs p).1
  unfolding block_from
  block_from-keeps [] p i = i
  block_from-keeps (c ∷ cs) p i =
      if-block I (c == b'*' && get_or cs 0 0 == b'/') _ _ (kept.step _ (kept.step _ i))
        (block_from-keeps cs (step_pos c p) (step_bytes kept c cs p i))

  module _ (text : Bytes) where
    closed-keeps : (at : SourcePos) (r : Bool × Cursor) → I r.1 → AfterSkip I (closed text at r)
    closed-keeps at (true, cur) i = i
    closed-keeps at (false, cur) i = i

    refused-keeps : (cur : Cursor) (r : Skipped) → AfterSkip I r → I (refused text cur r).cur
    refused-keeps cur (unterminated e) i = i
    refused-keeps cur (skipped after) i = i

    -- A comment consumes its first byte.
    pub skip_comment-keeps : (cur : Cursor) → I (advance cur) → AfterSkip I (skip_comment text cur)
    unfolding skip_comment
    skip_comment-keeps cur i =
        let body = advance (advance cur) in
        if-Skipped I (peek (advance cur) 0 == b'/') _ _ (scan-keeps kept _ (advance cur) i) (
          closed-keeps cur.pos (block_from body.rest body.pos)
            (block_from-keeps body.rest body.pos (kept.step _ i)))

    lex_slash-keeps : (cur : Cursor) → I (advance cur) → I (lex_slash text cur).cur
    unfolding lex_slash
    lex_slash-keeps cur i =
        if-Lexed I (peek cur 1 == b'/' || peek cur 1 == b'*') _ _
          (refused-keeps cur (skip_comment text cur) (skip_comment-keeps cur i)) i

    lex_unexpected-keeps :
        (ch : Chars) (cur : Cursor) → I (advance cur) → I (lex_unexpected ch text cur).cur
    unfolding lex_unexpected
    lex_unexpected-keeps ch cur i = scan-keeps kept _ (advance cur) i

    string_end-keeps :
        (begin : SourcePos) (t : StringState) → I t.cur → I (end_string text begin t).cur
    string_end-keeps begin t i = if-Lexed I t.bad _ _ i i

    -- A string ends, and consumes its first byte.
    lex_string-keeps :
        (ch : Chars) (cur : Cursor) → I (advance cur) → Gives I (lex_string ch text cur)
    unfolding lex_string
    lex_string-keeps ch cur i =
        let n = length cur.rest in
        let h : AtMost n cur = ground arith in
        let (t, e) = string_loop-total ch cur.pos n (opened cur) ((AtMost-IsKept n).step cur h) in
        let j = string_loop-keeps kept ch cur.pos (suc n) (opened cur) i e in
        (end_string text cur.pos t, rw e refl, string_end-keeps cur.pos t j)

    -- A token that begins at a byte consumes it.
    pub lex_at-keeps :
        (ch : Chars) → AreChars ch → (cur : Cursor) → I (advance cur) → Gives I (lex_at ch text cur)
    unfolding lex_at
    lex_at-keeps ch laws cur i =
        let c = peek cur 0 in
        let punctuation : (kind : TokenKind)
            → Gives I (some (plain text kind cur.pos (advance cur))) =
          λ kind. (plain text kind cur.pos (advance cur), refl, i) in
        if-Gives I (c == b'{') _ _ (λ _. punctuation l_brace)
          λ _.
            if-Gives I (c == b'}') _ _ (λ _. punctuation r_brace)
              λ _.
                if-Gives I (c == b'[') _ _ (λ _. punctuation l_square)
                  λ _.
                    if-Gives I (c == b']') _ _ (λ _. punctuation r_square)
                      λ _.
                        if-Gives I (c == b':') _ _ (λ _. punctuation colon)
                          λ _.
                            if-Gives I (c == b',') _ _ (λ _. punctuation comma)
                              λ _.
                                if-Gives I (c == b'"') _ _ (λ _. lex_string-keeps ch cur i)
                                  λ _.
                                    if-Gives I (c == b'/') _ _
                                      (λ _. (lex_slash text cur, refl, lex_slash-keeps cur i))
                                      λ _.
                                        if-Gives I (c == b'-' || ch.is_digit c) _ _
                                          (λ e. (
                                            lex_number ch text cur,
                                            refl,
                                            lex_number-keeps kept ch text cur e i,
                                          ))
                                          λ _.
                                            if-Gives I (ch.is_alpha c || c == b'_') _ _
                                              (λ e. (
                                                lex_word ch text cur,
                                                refl,
                                                lex_word-keeps kept ch text laws cur e i,
                                              ))
                                              λ _. (
                                                lex_unexpected ch text cur,
                                                refl,
                                                lex_unexpected-keeps ch cur i,
                                              )
