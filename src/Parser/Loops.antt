-- ===== src/Parser/Loops.antt =====
-- The generic structure of JSON values: skipping, separators, objects and arrays. A callback carries
-- the variables that its closure changes. `none` means that the fuel of a loop ran out.
use json_schema_mlir.Prelude.{
  ℕ, zero, suc, ◌+◌, ◌-◌, ◌%◌, ◌^◌, Bool, true, false, not, ◌&&◌, ◌||◌, ◌==◌, Option, none, some,
  List, [], ◌∷◌, length, if◌then◌else◌,
}
use json_schema_mlir.Lexer.Source.{SourcePos}
use json_schema_mlir.Lexer.Token.{
  TokenKind, l_brace, r_brace, l_square, r_square, colon, comma, string, eof, Token,
}
use json_schema_mlir.Parser.State.{
  State, tok, head_token, is, consume, report, error_at_token, error_unclosed, trailing_comma,
  expected_key, expected_colon, expected_separator,
}

abbrev pub Parse : Type 0 → Type 0
Parse A = State → Option (A × State)

-- The rest of a parse, behind a part that gave a value and a state.
abbrev pub and_then : {A B : Type 0} → Option (A × State) → (A → Parse B) → Option (B × State)
and_then none f = none
and_then (some (a, s)) f = f a s

abbrev pub pure : {A : Type 0} → A → Parse A
pure a s = some (a, s)

abbrev pub opens : Token → Bool
opens t = is l_brace t || is l_square t

abbrev pub closes : Token → Bool
closes t = is r_brace t || is r_square t

-- The depth behind a token, in `skipToSeparator`.
abbrev pub depth_behind : Token → ℕ → ℕ
depth_behind t depth = if opens t then depth + 1 else if closes t then depth - 1 else depth

-- The loop of `skipToSeparator`: the tokens left, and the end of the last one consumed.
unfoldable pub skip_from : TokenKind → ℕ → List Token → SourcePos → List Token × SourcePos
skip_from close depth [] e = ([], e)
skip_from close depth (t ∷ ts) e =
    let more = skip_from close (depth_behind t depth) ts t.range.end in
    if is eof t
    then (t ∷ ts, e)
    else if depth == 0 && (is comma t || is close t)
    then (t ∷ ts, e)
    else more

abbrev pub move : List Token × SourcePos → State → State
move (rest, e) s = record s { rest = rest; last_end = e }

unfoldable pub skip_to_separator : TokenKind → State → State
skip_to_separator close s = move (skip_from close 0 s.rest s.last_end) s

-- `++depth` and `--depth` of the `unsigned` in `skipNested`.
abbrev pub nested_behind : Token → ℕ → ℕ
nested_behind t depth =
    if opens t
    then (depth + 1) % 2 ^ 32
    else if closes t
    then (depth + 2 ^ 32 - 1) % 2 ^ 32
    else depth

-- The loop of `skipNested`.
unfoldable pub nested_from : ℕ → List Token → SourcePos → List Token × SourcePos
nested_from depth [] e = ([], e)
nested_from depth (t ∷ ts) e =
    let more = nested_from (nested_behind t depth) ts t.range.end in
    if is eof t
    then (t ∷ ts, e)
    else if nested_behind t depth == 0 || is eof (head_token ts)
    then (ts, t.range.end)
    else more

unfoldable pub skip_nested : State → State
skip_nested s = move (nested_from 0 s.rest s.last_end) s

-- The `while (true)` of `parseSeparator`.
unfoldable pub separator_loop : ℕ → TokenKind → SourcePos → Parse Bool
separator_loop zero close open_pos s = none
separator_loop (suc fuel) close open_pos s =
    let again =
      separator_loop fuel close open_pos
        (skip_to_separator close (error_at_token (expected_separator close) s)) in
    if is comma (tok s)
    then (let behind_comma = consume s in
        if not (is close (tok behind_comma))
        then some (true, behind_comma)
        else some (false, consume (report (tok s).range.begin trailing_comma behind_comma)))
    else if is close (tok s)
    then some (false, consume s)
    else if is eof (tok s)
    then some (false, error_unclosed close open_pos s)
    else again

-- Two rounds: one before and one behind a recovery.
unfoldable pub parse_separator : TokenKind → SourcePos → Parse Bool
parse_separator close open_pos s = separator_loop 2 close open_pos s

module _ {L : Type 0} where
  -- The `while` of a `do ... while`.
  abbrev pub go_on : (L → Parse L) → L → Bool → Parse L
  go_on again l true = again l
  go_on again l false = pure l

  abbrev pub next : (L → Parse L) → TokenKind → SourcePos → L → Parse L
  next again close open_pos l s = and_then (parse_separator close open_pos s) (go_on again l)

  -- The body of the loop of `parseObject`, where `continue` ends it.
  unfoldable pub object_member : (Token → L → Parse L) → L → Parse L
  object_member on_member l s =
      if not (is string (tok s))
      then some (l, skip_to_separator r_brace (error_at_token expected_key s))
      else (let at_colon = consume s in
          if not (is colon (tok at_colon))
          then some (l, skip_to_separator r_brace (error_at_token expected_colon at_colon))
          else on_member (tok s) l (consume at_colon))

  unfoldable pub object_loop : ℕ → (Token → L → Parse L) → SourcePos → L → Parse L
  object_loop zero on_member open_pos l s = none
  object_loop (suc fuel) on_member open_pos l s =
      let round =
        and_then (object_member on_member l s)
          (next (object_loop fuel on_member open_pos) r_brace open_pos) in
      if is eof (tok s) then some (l, error_unclosed r_brace open_pos s) else round

  unfoldable pub parse_object : (Token → L → Parse L) → L → Parse L
  parse_object on_member l s =
      let inside = consume s in
      if is r_brace (tok inside)
      then some (l, consume inside)
      else object_loop (suc (length inside.rest)) on_member (tok s).range.begin l inside

  unfoldable pub array_loop : ℕ → (L → Parse L) → SourcePos → L → Parse L
  array_loop zero on_element open_pos l s = none
  array_loop (suc fuel) on_element open_pos l s =
      let round =
        and_then (on_element l s) (next (array_loop fuel on_element open_pos) r_square open_pos) in
      if is eof (tok s) then some (l, error_unclosed r_square open_pos s) else round

  unfoldable pub parse_array : (L → Parse L) → L → Parse L
  parse_array on_element l s =
      let inside = consume s in
      if is r_square (tok inside)
      then some (l, consume inside)
      else array_loop (suc (length inside.rest)) on_element (tok s).range.begin l inside
