-- ===== src/Tests/Lexing.antt =====
-- Witnesses for the lexer.
use json_schema_mlir.Prelude.{true, [], ◌∷◌, Bytes}
use json_schema_mlir.Lexer.Tokenize.{tokenize}
use json_schema_mlir.Lexer.Moves.Ends.{Ends, tokenize-Ends}
use json_schema_mlir.Tests.Classes.{ascii, ascii-AreChars}

-- `{"a":1}` behind a comment.
abbrev text : Bytes
text = b'/' ∷ b'*' ∷ b'*' ∷ b'/' ∷ b'{' ∷ b'"' ∷ b'a' ∷ b'"' ∷ b':' ∷ b'1' ∷ b'}' ∷ []

tokenize-Ends_example : Ends (tokenize ascii true text)
tokenize-Ends_example = tokenize-Ends ascii ascii-AreChars true text
