-- ===== src/Parser/Vocabulary.antt =====
-- The words that docs/trace-format.md and JSON Schema have for the kinds of keywords, against the
-- table of the parser.
use json_schema_mlir.Prelude.{
  ◌≡◌, arith, Bool, true, false, ◌||◌, Bool-cases, inl, inr, List, [], ◌∷◌, All, Bytes, bytes_eq,
  bytes_eq→eq,
}
use json_schema_mlir.Ast.{
  KeywordKind, type_kind, properties_kind, required_kind, all_of_kind, minimum_kind, maximum_kind,
  exclusive_minimum_kind, exclusive_maximum_kind, multiple_of_kind, min_length_kind,
  max_length_kind, pattern_kind, format_kind, annotation_kind, unknown_kind,
}
use json_schema_mlir.Parser.Names.{kind_in, keyword_names, keyword_kind_of}

abbrev pub words_of : KeywordKind → List Bytes
words_of type_kind = (b't' ∷ b'y' ∷ b'p' ∷ b'e' ∷ []) ∷ []
words_of properties_kind =
    (b'p' ∷ b'r' ∷ b'o' ∷ b'p' ∷ b'e' ∷ b'r' ∷ b't' ∷ b'i' ∷ b'e' ∷ b's' ∷ []) ∷ []
words_of required_kind = (b'r' ∷ b'e' ∷ b'q' ∷ b'u' ∷ b'i' ∷ b'r' ∷ b'e' ∷ b'd' ∷ []) ∷ []
words_of all_of_kind = (b'a' ∷ b'l' ∷ b'l' ∷ b'O' ∷ b'f' ∷ []) ∷ []
words_of minimum_kind = (b'm' ∷ b'i' ∷ b'n' ∷ b'i' ∷ b'm' ∷ b'u' ∷ b'm' ∷ []) ∷ []
words_of maximum_kind = (b'm' ∷ b'a' ∷ b'x' ∷ b'i' ∷ b'm' ∷ b'u' ∷ b'm' ∷ []) ∷ []
words_of exclusive_minimum_kind =
    (b'e' ∷ b'x' ∷ b'c' ∷ b'l' ∷ b'u' ∷ b's' ∷ b'i' ∷ b'v' ∷ b'e' ∷ b'M' ∷ b'i' ∷ b'n' ∷ b'i' ∷ b'm'
      ∷ b'u' ∷ b'm' ∷ [])
    ∷ []
words_of exclusive_maximum_kind =
    (b'e' ∷ b'x' ∷ b'c' ∷ b'l' ∷ b'u' ∷ b's' ∷ b'i' ∷ b'v' ∷ b'e' ∷ b'M' ∷ b'a' ∷ b'x' ∷ b'i' ∷ b'm'
      ∷ b'u' ∷ b'm' ∷ [])
    ∷ []
words_of multiple_of_kind =
    (b'm' ∷ b'u' ∷ b'l' ∷ b't' ∷ b'i' ∷ b'p' ∷ b'l' ∷ b'e' ∷ b'O' ∷ b'f' ∷ []) ∷ []
words_of min_length_kind = (b'm' ∷ b'i' ∷ b'n' ∷ b'L' ∷ b'e' ∷ b'n' ∷ b'g' ∷ b't' ∷ b'h' ∷ []) ∷ []
words_of max_length_kind = (b'm' ∷ b'a' ∷ b'x' ∷ b'L' ∷ b'e' ∷ b'n' ∷ b'g' ∷ b't' ∷ b'h' ∷ []) ∷ []
words_of pattern_kind = (b'p' ∷ b'a' ∷ b't' ∷ b't' ∷ b'e' ∷ b'r' ∷ b'n' ∷ []) ∷ []
words_of format_kind = (b'f' ∷ b'o' ∷ b'r' ∷ b'm' ∷ b'a' ∷ b't' ∷ []) ∷ []
words_of annotation_kind =
    (b'$' ∷ b's' ∷ b'c' ∷ b'h' ∷ b'e' ∷ b'm' ∷ b'a' ∷ [])
    ∷ (b'$' ∷ b'i' ∷ b'd' ∷ [])
    ∷ (b'$' ∷ b'c' ∷ b'o' ∷ b'm' ∷ b'm' ∷ b'e' ∷ b'n' ∷ b't' ∷ [])
    ∷ (b't' ∷ b'i' ∷ b't' ∷ b'l' ∷ b'e' ∷ [])
    ∷ (b'd' ∷ b'e' ∷ b's' ∷ b'c' ∷ b'r' ∷ b'i' ∷ b'p' ∷ b't' ∷ b'i' ∷ b'o' ∷ b'n' ∷ [])
    ∷ (b'd' ∷ b'e' ∷ b'f' ∷ b'a' ∷ b'u' ∷ b'l' ∷ b't' ∷ [])
    ∷ (b'e' ∷ b'x' ∷ b'a' ∷ b'm' ∷ b'p' ∷ b'l' ∷ b'e' ∷ b's' ∷ [])
    ∷ (b'd' ∷ b'e' ∷ b'p' ∷ b'r' ∷ b'e' ∷ b'c' ∷ b'a' ∷ b't' ∷ b'e' ∷ b'd' ∷ [])
    ∷ (b'r' ∷ b'e' ∷ b'a' ∷ b'd' ∷ b'O' ∷ b'n' ∷ b'l' ∷ b'y' ∷ [])
    ∷ (b'w' ∷ b'r' ∷ b'i' ∷ b't' ∷ b'e' ∷ b'O' ∷ b'n' ∷ b'l' ∷ b'y' ∷ [])
    ∷ []
words_of unknown_kind = []

abbrev pub is_word : List Bytes → Bytes → Bool
is_word [] name = false
is_word (w ∷ ws) name = bytes_eq name w || is_word ws name

-- The name is a word for the kind; an unknown keyword is a word for no kind.
abbrev pub IsCalled : KeywordKind → Bytes → Type 0
IsCalled unknown_kind name = (kind : KeywordKind) → is_word (words_of kind) name ≡ false
IsCalled kind name = is_word (words_of kind) name ≡ true

-- What holds of the cases of a table, and of what is in none of them, holds of what it says.
kind_in-holds :
    (Q : Bytes → KeywordKind → Type 0) (cases : List (Bytes × KeywordKind)) (name : Bytes)
    → All (λ c. Q c.0 c.1) cases
    → (All (λ c. bytes_eq name c.0 ≡ false) cases → Q name unknown_kind)
    → Q name (kind_in cases name)
unfolding kind_in
kind_in-holds Q [] name all none_of = none_of tt
kind_in-holds Q ((n, kind) ∷ cases) name (q, all) none_of = elim (Bool-cases (bytes_eq name n)) [
  | inl same ↦ rw same (rw (bytes_eq→eq name n same) q)
  | inr other ↦ rw other (kind_in-holds Q cases name all (λ others. none_of (other, others)))
]

other_words :
    (name : Bytes)
    → All (λ c. bytes_eq name c.0 ≡ false) keyword_names
    → (kind : KeywordKind) → is_word (words_of kind) name ≡ false
other_words name h type_kind = ground arith
other_words name h properties_kind = ground arith
other_words name h required_kind = ground arith
other_words name h all_of_kind = ground arith
other_words name h minimum_kind = ground arith
other_words name h maximum_kind = ground arith
other_words name h exclusive_minimum_kind = ground arith
other_words name h exclusive_maximum_kind = ground arith
other_words name h multiple_of_kind = ground arith
other_words name h min_length_kind = ground arith
other_words name h max_length_kind = ground arith
other_words name h pattern_kind = ground arith
other_words name h format_kind = ground arith
other_words name h annotation_kind = ground arith
other_words name h unknown_kind = ground arith

-- A name is called what the table of the parser says.
pub keyword_kind_of-IsCalled :
    (name : Bytes) {kind : KeywordKind} → keyword_kind_of name ≡ kind → IsCalled kind name
unfolding bytes_eq
keyword_kind_of-IsCalled name e =
    rw (← e)
      (kind_in-holds (λ n k. IsCalled k n) keyword_names name (ground arith) (other_words name))
