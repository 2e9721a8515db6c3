-- ===== src/Lexer/Comments.antt =====
-- `skipComment`, and the comments before a token.
use json_schema_mlir.Prelude.{
  ℕ, zero, suc, Bool, true, false, not, ◌&&◌, ◌||◌, ◌==◌, Option, none, some, [], ◌∷◌, get_or,
  Bytes, if◌then◌else◌,
}
use json_schema_mlir.Lexer.Source.{SourcePos, Cursor, peek, advance, step_pos, scan}
use json_schema_mlir.Lexer.Token.{Lexed, make_error, unterminated_comment}

abbrev pub is_space : ℕ → Bool
is_space c = c == b' ' || c == b'\t' || c == b'\n' || c == b'\r'

abbrev pub skip_whitespace : Cursor → Cursor
skip_whitespace = scan is_space

abbrev pub at_comment : Cursor → Bool
at_comment cur = peek cur 0 == b'/' && (peek cur 1 == b'/' || peek cur 1 == b'*')

-- The loop of a block comment: whether the closing mark was found, and the cursor behind it.
unfoldable pub block_from : Bytes → SourcePos → Bool × Cursor
block_from [] p = (false, record { rest = []; pos = p })
block_from (c ∷ cs) p =
    let more = block_from cs (step_pos c p) in
    if c == b'*' && get_or cs 0 0 == b'/'
    then (true, advance (advance (record { rest = c ∷ cs; pos = p })))
    else more

pub data Skipped : Type 0 where
  skipped : Cursor → Skipped
  unterminated : Lexed → Skipped

abbrev pub closed : Bytes → SourcePos → Bool × Cursor → Skipped
closed text begin (true, cur) = skipped cur
closed text begin (false, cur) = unterminated (make_error text begin begin unterminated_comment cur)

unfoldable pub skip_comment : Bytes → Cursor → Skipped
skip_comment text cur =
    let inside = advance cur in
    if peek inside 0 == b'/'
    then skipped (scan (λ c. not (c == b'\n')) inside)
    else (let body = advance inside in closed text cur.pos (block_from body.rest body.pos))

-- What follows a comment, where `again` is the rest of the loop.
abbrev pub after_comment : (Cursor → Option Skipped) → Skipped → Option Skipped
after_comment again (unterminated e) = some (unterminated e)
after_comment again (skipped cur) = again (skip_whitespace cur)

-- The loop over comments before a token, with fuel; `none` means that the fuel ran out.
unfoldable pub skip_comments : Bool → Bytes → ℕ → Cursor → Option Skipped
skip_comments allow text zero cur = none
skip_comments allow text (suc fuel) cur = elim (allow && at_comment cur) [
  | false ↦ some (skipped cur)
  | true ↦ after_comment (skip_comments allow text fuel) (skip_comment text cur)
]
