-- ===== src/Importer/Names.antt =====
-- `escapePointerToken` and `getFunctionName`, as bytes. `llvm::isAlnum` and `llvm::toLower` are
-- parameters.
pub mod RoundTrip
use json_schema_mlir.Prelude.{
  ℕ, Bool, true, false, not, ◌==◌, List, [], ◌∷◌, ◌++◌, Bytes, if◌then◌else◌,
}

-- What is added to `out` for one character.
unfoldable pub escape_byte : ℕ → Bytes
escape_byte c =
    if c == b'~' then b'~' ∷ b'0' ∷ [] else if c == b'/' then b'~' ∷ b'1' ∷ [] else c ∷ []

unfoldable pub escape_pointer_token : Bytes → Bytes
escape_pointer_token [] = []
escape_pointer_token (c ∷ cs) = escape_byte c ++ escape_pointer_token cs

-- The loop of `getFunctionName`, from the flag `separate` on.
unfoldable pub function_words : (ℕ → Bool) → (ℕ → ℕ) → Bool → Bytes → Bytes
function_words is_alnum to_lower separate [] = []
function_words is_alnum to_lower separate (c ∷ cs) =
    let apart = function_words is_alnum to_lower true cs in
    let joined = function_words is_alnum to_lower false cs in
    if not (is_alnum c)
    then apart
    else if separate
    then b'_' ∷ to_lower c ∷ joined
    else to_lower c ∷ joined

abbrev pub get_function_name : (ℕ → Bool) → (ℕ → ℕ) → Bytes → Bytes
get_function_name is_alnum to_lower name =
    b'v'
    ∷ b'a'
    ∷ b'l'
    ∷ b'i'
    ∷ b'd'
    ∷ b'a'
    ∷ b't'
    ∷ b'e'
    ∷ function_words is_alnum to_lower true name
