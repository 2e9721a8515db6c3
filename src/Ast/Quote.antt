-- ===== src/Ast/Quote.antt =====
-- `printQuoted`, as bytes.
pub mod RoundTrip
use json_schema_mlir.Prelude.{
  ℕ, ◌+◌, ◌-◌, ◌/◌, ◌%◌, ◌||◌, ◌==◌, ltb, List, [], ◌∷◌, ◌++◌, Bytes, if◌then◌else◌,
}

-- A digit of `%x`.
abbrev pub hex_char : ℕ → ℕ
hex_char n = if ltb n 10 then b'0' + n else b'a' + (n - 10)

-- What is printed for one byte.
unfoldable pub quote_byte : ℕ → Bytes
quote_byte c =
    if c == b'"' || c == b'\\'
    then b'\\' ∷ c ∷ []
    else if c == b'\n'
    then b'\\' ∷ b'n' ∷ []
    else if ltb c 0x20
    then b'\\' ∷ b'u' ∷ b'0' ∷ b'0' ∷ hex_char (c / 16) ∷ hex_char (c % 16) ∷ []
    else c ∷ []

unfoldable pub quote_bytes : Bytes → Bytes
quote_bytes [] = []
quote_bytes (c ∷ cs) = quote_byte c ++ quote_bytes cs

unfoldable pub print_quoted : Bytes → Bytes
print_quoted value = b'"' ∷ (quote_bytes value ++ b'"' ∷ [])
