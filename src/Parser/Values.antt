-- ===== src/Parser/Values.antt =====
-- `skipValue`, `badValue`, `parseNumber` and `checkUnique`. The nesting depth is given by the levels
-- left, `kMaxDepth - depth`: at zero the limit is reached. `StringRef::getAsDouble` is a parameter.
use json_schema_mlir.Prelude.{
  ℕ, zero, suc, ℤ, Bool, not, ◌&&◌, ◌||◌, Option, none, some, List, [], ◌∷◌, Bytes, bytes_eq,
  if◌then◌else◌,
}
use json_schema_mlir.Float.{Double}
use json_schema_mlir.Lexer.Source.{SourcePos}
use json_schema_mlir.Lexer.Token.{
  TokenKind, l_brace, r_brace, l_square, r_square, colon, comma, string, number, true_word,
  false_word, null_word, eof, error, Token,
}
use json_schema_mlir.Parser.State.{
  ParseMessage, State, tok, is, consume, report, fail, error_at_token, expected_value, too_deep,
  bad_value, draft4_bound, number_out_of_range, duplicate_key,
}
use json_schema_mlir.Parser.Loops.{Parse, and_then, parse_object, parse_array, skip_nested}

-- `kMaxDepth`.
abbrev pub max_depth : ℕ
max_depth = 128

abbrev pub Done : Type 0
Done = Unit {0}

-- The `switch` of `skipValue`, where `nested` handles an opening bracket.
unfoldable pub skip_kind : Parse Done → TokenKind → Parse Done
skip_kind nested string s = some (tt, consume s)
skip_kind nested number s = some (tt, consume s)
skip_kind nested true_word s = some (tt, consume s)
skip_kind nested false_word s = some (tt, consume s)
skip_kind nested null_word s = some (tt, consume s)
skip_kind nested error s = some (tt, consume (fail s))
skip_kind nested l_brace s = nested s
skip_kind nested l_square s = nested s
skip_kind nested r_brace s = some (tt, error_at_token expected_value s)
skip_kind nested r_square s = some (tt, error_at_token expected_value s)
skip_kind nested comma s = some (tt, error_at_token expected_value s)
skip_kind nested eof s = some (tt, error_at_token expected_value s)
skip_kind nested colon s = some (tt, consume (error_at_token expected_value s))

abbrev pub skip_too_deep : Parse Done
skip_too_deep s = some (tt, skip_nested (error_at_token too_deep s))

unfoldable pub skip_bracket : Parse Done → Parse Done
skip_bracket inner s =
    if is l_brace (tok s) then parse_object (λ key l. inner) tt s else parse_array (λ l. inner) tt s

unfoldable pub skip_value : ℕ → Parse Done
skip_value zero s = skip_kind skip_too_deep (tok s).kind s
skip_value (suc levels) s = skip_kind (skip_bracket (skip_value levels)) (tok s).kind s

-- A parse with no result, followed by one that gives `none`.
abbrev pub nothing : {A : Type 0} → Option (Done × State) → Option (Option A × State)
nothing none = none
nothing (some (u, s)) = some (none, s)

-- The skipped value has the wrong shape; the callers give up with no result.
unfoldable pub bad_value_at : {A : Type 0} → ParseMessage → ℕ → Parse (Option A)
bad_value_at message levels s = nothing (skip_value levels (error_at_token message s))

-- What the parser takes of LLVM and of C++ conversions: `StringRef::getAsDouble` with inexact
-- results allowed, 2^53, and the conversion of a `double` to `int64_t`.
pub record Reading (D : Type 0) : Type 0 where
  pub as_double : Bytes → Option D
  pub max_exact : D
  pub to_int64 : D → ℤ

abbrev exclusive_minimum_name : Bytes
exclusive_minimum_name =
    b'e' ∷ b'x' ∷ b'c' ∷ b'l' ∷ b'u' ∷ b's' ∷ b'i' ∷ b'v' ∷ b'e' ∷ b'M' ∷ b'i' ∷ b'n' ∷ b'i' ∷ b'm'
    ∷ b'u' ∷ b'm' ∷ []

abbrev exclusive_maximum_name : Bytes
exclusive_maximum_name =
    b'e' ∷ b'x' ∷ b'c' ∷ b'l' ∷ b'u' ∷ b's' ∷ b'i' ∷ b'v' ∷ b'e' ∷ b'M' ∷ b'a' ∷ b'x' ∷ b'i' ∷ b'm'
    ∷ b'u' ∷ b'm' ∷ []

-- The boolean form of Draft 4.
abbrev is_draft4 : Token → Token → Bool
is_draft4 key t =
    (bytes_eq key.value exclusive_minimum_name || bytes_eq key.value exclusive_maximum_name)
    && (is true_word t || is false_word t)

module _ {D : Type 0} ⦃d : Double D⦄ (r : Reading D) where
  -- `isfinite` of the number read, if one was read.
  abbrev pub finite_of : Option D → Option D
  finite_of none = none
  finite_of (some x) = if d.is_finite x then some x else none

  abbrev pub number_read : Token → Option D → Parse (Option (D × Bytes))
  number_read t none s = some (none, report t.range.begin number_out_of_range s)
  number_read t (some x) s = some (some (x, t.spelling), s)

  -- The value and its spelling.
  unfoldable pub parse_number : Token → ℕ → Parse (Option (D × Bytes))
  parse_number key levels s =
      if not (is number (tok s))
      then bad_value_at
          (if is_draft4 key (tok s) then draft4_bound key.value else bad_value key.value) levels s
      else number_read (tok s) (finite_of (r.as_double (tok s).spelling)) (consume s)

-- The keys seen so far, with their positions: the first entry of a key counts.
abbrev pub Seen : Type 0
Seen = List (Bytes × SourcePos)

unfoldable pub seen_at : Seen → Bytes → Option SourcePos
seen_at [] name = none
seen_at ((n, p) ∷ seen) name =
    let rest = seen_at seen name in if bytes_eq n name then some p else rest

abbrev pub when_new : {L : Type 0} → Option SourcePos → Token → ℕ → L → Parse L → Parse L
when_new none key levels l first s = first s
when_new (some at) key levels l first s =
    and_then (skip_value levels (report key.range.begin (duplicate_key key.value at) s))
      (λ u t. some (l, t))

-- The code behind `checkUnique`: a key seen before is reported and its value skipped.
unfoldable pub unless_seen : {L : Type 0} → Seen → Token → ℕ → L → Parse L → Parse L
unless_seen seen key levels l first s = when_new (seen_at seen key.value) key levels l first s
