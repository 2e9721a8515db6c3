-- ===== src/Lexer/Strings.antt =====
-- `lexString` and `appendUTF8`. One step handles one character or escape; the loop takes fuel, and
-- `none` means that the fuel ran out.
use json_schema_mlir.Prelude.{
  ℕ, zero, suc, ◌+◌, ◌-◌, ◌*◌, ◌^◌, Bool, true, false, not, ◌&&◌, ◌||◌, ◌==◌, ltb, leb, Option,
  none, some, List, [], ◌∷◌, ◌++◌, length, Bytes, if◌then◌else◌,
}
use json_schema_mlir.Lexer.Source.{SourcePos, Cursor, peek, advance}
use json_schema_mlir.Lexer.Token.{
  string, error, Lexed, make_token, Message, unterminated_string, control_character,
  expected_hex_digits, unpaired_low_surrogate, unpaired_high_surrogate, invalid_escape, Diagnostic,
  Chars,
}

pub record StringState : Type 0 where
  pub cur : Cursor
  pub value : Bytes
  pub bad : Bool
  pub diags : List Diagnostic

-- `break` out of the loop, or `continue`.
pub data Next : Type 0 where
  stop : StringState → Next
  more : StringState → Next

-- Only the first problem is reported.
abbrev pub fail_at : SourcePos → Message → StringState → StringState
fail_at at message s =
    if s.bad
    then s
    else record s { bad = true; diags = s.diags ++ (record { at = at; message = message } ∷ []) }

abbrev pub move_to : Cursor → StringState → StringState
move_to cur s = record s { cur = cur }

-- `value.push_back(byte); advance();`.
abbrev pub push : ℕ → StringState → StringState
push byte s = record s { value = s.value ++ byte ∷ []; cur = advance s.cur }

-- A code point that cannot be encoded appends nothing.
abbrev pub append_bytes : Option Bytes → Bytes → Bytes
append_bytes none out = out
append_bytes (some bytes) out = out ++ bytes

abbrev pub append_utf8 : Chars → ℕ → Bytes → Bytes
append_utf8 ch code_point out = append_bytes (ch.convert_code_point code_point) out

-- `readHex4`, with `n` digits to go: whether all were there, and their value.
unfoldable pub read_hex : Chars → ℕ → ℕ → Cursor → Bool × ℕ × Cursor
read_hex ch zero result cur = (true, result, cur)
read_hex ch (suc n) result cur =
    let h = peek cur 0 in
    let more = read_hex ch n (result * 16 + ch.hex_digit_value h) (advance cur) in
    if not (ch.is_hex_digit h) then (false, result, cur) else more

abbrev pub is_low_surrogate : ℕ → Bool
is_low_surrogate unit = leb 0xDC00 unit && leb unit 0xDFFF

abbrev pub is_high_surrogate : ℕ → Bool
is_high_surrogate unit = leb 0xD800 unit && leb unit 0xDBFF

-- The code point of a surrogate pair.
abbrev pub combine : ℕ → ℕ → ℕ
combine unit low = 0x10000 + (unit - 0xD800) * 2 ^ 10 + (low - 0xDC00)

-- Behind a high surrogate: the low one must follow.
unfoldable pub low_half : Chars → SourcePos → ℕ → StringState → StringState
low_half ch at unit s =
    if not (peek s.cur 0 == b'\\') || not (peek s.cur 1 == b'u')
    then fail_at at unpaired_high_surrogate s
    else (let (full, low, after) = read_hex ch 4 0 (advance (advance s.cur)) in
        let t = move_to after s in
        if not full || not (is_low_surrogate low)
        then fail_at at unpaired_high_surrogate t
        else record t { value = append_utf8 ch (combine unit low) t.value })

-- `case 'u'`, with the cursor at the `u`.
unfoldable pub unicode_escape : Chars → SourcePos → StringState → StringState
unicode_escape ch at s =
    let (full, unit, after) = read_hex ch 4 0 (advance s.cur) in
    let t = move_to after s in
    if not full
    then fail_at at expected_hex_digits t
    else if is_low_surrogate unit
    then fail_at at unpaired_low_surrogate t
    else if is_high_surrogate unit
    then low_half ch at unit t
    else record t { value = append_utf8 ch unit t.value }

abbrev pub at_end : Bytes → Bool
at_end [] = true
at_end (c ∷ cs) = false

-- The `default` of the escapes.
abbrev pub bad_escape : SourcePos → StringState → StringState
bad_escape at s =
    let t = fail_at at invalid_escape s in
    if not (peek s.cur 0 == b'\n') && not (at_end s.cur.rest) then move_to (advance s.cur) t else t

-- The `switch (escape)`, with the cursor behind the backslash.
unfoldable pub escape : Chars → SourcePos → StringState → StringState
escape ch at s =
    let e = peek s.cur 0 in
    if e == b'"' || e == b'\\' || e == b'/'
    then push e s
    else if e == b'b'
    then push 8 s
    else if e == b'f'
    then push 12 s
    else if e == b'n'
    then push 10 s
    else if e == b'r'
    then push 13 s
    else if e == b't'
    then push 9 s
    else if e == b'u'
    then unicode_escape ch at s
    else bad_escape at s

-- One round of the `while (true)`; `begin` is the opening quote.
unfoldable pub string_step : Chars → SourcePos → StringState → Next
string_step ch begin s =
    let at = s.cur.pos in
    let c = peek s.cur 0 in
    if at_end s.cur.rest || c == b'\n'
    then stop (fail_at begin unterminated_string s)
    else if c == b'"'
    then stop (move_to (advance s.cur) s)
    else if ltb c 0x20
    then more (move_to (advance s.cur) (fail_at at control_character s))
    else if not (c == b'\\')
    then more (push c s)
    else more (escape ch at (move_to (advance s.cur) s))

-- What follows a round, where `again` runs the rest of the loop.
abbrev pub follow : (StringState → Option StringState) → Next → Option StringState
follow again (stop t) = some t
follow again (more t) = again t

unfoldable pub string_loop : Chars → SourcePos → ℕ → StringState → Option StringState
string_loop ch begin zero s = none
string_loop ch begin (suc fuel) s = follow (string_loop ch begin fuel) (string_step ch begin s)

abbrev pub end_string : Bytes → SourcePos → StringState → Lexed
end_string text begin s =
    if s.bad
    then record { token = make_token text error begin s.cur; cur = s.cur; diags = s.diags }
    else record {
      token = record (make_token text string begin s.cur) { value = s.value };
      cur = s.cur;
      diags = s.diags;
    }

-- The state behind the opening quote.
abbrev pub opened : Cursor → StringState
opened cur = record { cur = advance cur; value = []; bad = false; diags = [] }

abbrev pub ended : Bytes → SourcePos → Option StringState → Option Lexed
ended text begin none = none
ended text begin (some s) = some (end_string text begin s)

-- A round consumes a byte, or ends the loop: one round more than there are bytes is enough.
unfoldable pub lex_string : Chars → Bytes → Cursor → Option Lexed
lex_string ch text cur =
    ended text cur.pos (string_loop ch cur.pos (suc (length cur.rest)) (opened cur))
