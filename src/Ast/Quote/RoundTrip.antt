-- ===== src/Ast/Quote/RoundTrip.antt =====
-- `printQuoted` followed by `lexString`.
use json_schema_mlir.Prelude.{
  append_assoc, append-nil, ℕ, zero, suc, ◌+◌, ◌-◌, ◌*◌, ◌/◌, ◌%◌, ◌<◌, ◌≤◌, ◌≡◌, refl, ◌∙◌, ap,
  arith, true, false, ◌||◌, ◌==◌, ltb, Bool-cases, inl, inr, some, [], ◌∷◌, ◌++◌, length, Bytes,
  ==→eq,
}
use json_schema_mlir.Lexer.Source.{SourcePos, advance, step_pos}
use json_schema_mlir.Lexer.Token.{string, Lexed, Chars, AreChars}
use json_schema_mlir.Lexer.Strings.{
  StringState, more, string_step, string_loop, escape, is_low_surrogate, is_high_surrogate,
  unicode_escape, read_hex, lex_string, end_string,
}
use json_schema_mlir.Lexer.Moves.{at_bytes}
use json_schema_mlir.Ast.Quote.{hex_char, quote_byte, quote_bytes, print_quoted}

-- The state with no problem found.
abbrev reading : Bytes → SourcePos → Bytes → StringState
reading rest p value = record { cur = at_bytes rest p; value = value; bad = false; diags = [] }

-- At least one byte is printed for each.
length-quote_byte : (c : ℕ) (rest : Bytes) → suc (length rest) ≤ length (quote_byte c ++ rest)
unfolding quote_byte
length-quote_byte c rest = ground arith

length-quote_bytes : (v tail : Bytes) → length v ≤ length (quote_bytes v ++ tail)
unfolding quote_bytes
length-quote_bytes [] tail = omega arith
length-quote_bytes (c ∷ cs) tail =
    let h = length-quote_bytes cs tail in
    let k = length-quote_byte c (quote_bytes cs ++ tail) in
    rw (append_assoc (quote_byte c) (quote_bytes cs) tail) (omega arith)

module _ (ch : Chars) (laws : AreChars ch) (begin : SourcePos) where
  -- One round reads `c` off `text`, and goes on with `rest`.
  abbrev Reads : ℕ → Bytes → Bytes → SourcePos → Bytes → Type 0
  Reads c text rest p value =
      (q : SourcePos) × (string_step ch begin (reading text p value)
        ≡ more (reading rest q (value ++ c ∷ [])))

  Reads-plain :
      (c : ℕ) (rest : Bytes) (p : SourcePos) (value : Bytes)
      → (c == b'"') ≡ false
      → (c == b'\\') ≡ false
      → (c == b'\n') ≡ false
      → ltb c 0x20 ≡ false
      → Reads c (c ∷ rest) rest p value
  unfolding string_step advance
  Reads-plain c rest p value e1 e2 e3 e4 = (step_pos c p, rw (e1, e2, e3, e4))

  Reads-escaped :
      (c : ℕ) (rest : Bytes) (p : SourcePos) (value : Bytes)
      → (c == b'"' || c == b'\\') ≡ true
      → Reads c (b'\\' ∷ c ∷ rest) rest p value
  unfolding string_step advance escape
  Reads-escaped c rest p value e = (step_pos c (step_pos b'\\' p), ground arith)

  Reads-newline :
      (rest : Bytes) (p : SourcePos) (value : Bytes)
      → Reads b'\n' (b'\\' ∷ b'n' ∷ rest) rest p value
  unfolding string_step advance escape
  Reads-newline rest p value = (step_pos b'n' (step_pos b'\\' p), refl)

  hex_char_lem :
      (n : ℕ)
      → n < 16
      → (ch.is_hex_digit (hex_char n) ≡ true) × (ch.hex_digit_value (hex_char n) ≡ n)
  hex_char_lem n h = elim (Bool-cases (ltb n 10)) [
    | inl e ↦
        rw e (
          laws.is_hex_digit_decimal n (ground arith),
          laws.hex_digit_value_decimal n (ground arith),
        )
    | inr e ↦ rw e (
      laws.is_hex_digit_lower (n - 10) (ground arith),
      laws.hex_digit_value_lower (n - 10) (ground arith) ∙ ground arith,
    )
  ]

  read_hex_step :
      (n r d : ℕ) (rest : Bytes) (p : SourcePos)
      → d < 16
      → read_hex ch (suc n) r (at_bytes (hex_char d ∷ rest) p)
        ≡ read_hex ch n (r * 16 + d) (at_bytes rest (step_pos (hex_char d) p))
  unfolding read_hex advance
  read_hex_step n r d rest p h = let (is, value) = hex_char_lem d h in rw (is, value)

  -- The four digits of a byte below 0x20.
  read_four :
      (a b : ℕ) (rest : Bytes) (p : SourcePos)
      → a < 16
      → b < 16
      → (q : SourcePos) × (read_hex ch 4 0
            (at_bytes (b'0' ∷ b'0' ∷ hex_char a ∷ hex_char b ∷ rest) p)
          ≡ (true, a * 16 + b, at_bytes rest q))
  unfolding read_hex
  read_four a b rest p h k =
      let p1 = step_pos b'0' p in
      let p2 = step_pos b'0' p1 in
      let p3 = step_pos (hex_char a) p2 in
      let e1 = read_hex_step 3 0 0 (b'0' ∷ hex_char a ∷ hex_char b ∷ rest) p (omega arith) in
      let e2 = read_hex_step 2 0 0 (hex_char a ∷ hex_char b ∷ rest) p1 (omega arith) in
      let e3 = read_hex_step 1 0 a (hex_char b ∷ rest) p2 h in
      let e4 = read_hex_step 0 (0 * 16 + a) b rest p3 k in
      let q = step_pos (hex_char b) p3 in
      let sum : (0 * 16 + a) * 16 + b ≡ a * 16 + b = omega arith in
      (q, e1 ∙ e2 ∙ e3 ∙ e4 ∙ ap (λ v. (true, v, at_bytes rest q)) sum)

  unicode_escape-low :
      (c : ℕ) (digits : Bytes) (p : SourcePos) (rest : Bytes) (q : SourcePos) (value : Bytes)
      (at : SourcePos)
      → c < 32
      → read_hex ch 4 0 (at_bytes digits (step_pos b'u' p)) ≡ (true, c, at_bytes rest q)
      → unicode_escape ch at (reading (b'u' ∷ digits) p value) ≡ reading rest q (value ++ c ∷ [])
  unfolding unicode_escape advance
  unicode_escape-low c digits p rest q value at h four =
      let low : is_low_surrogate c ≡ false = ground arith in
      let high : is_high_surrogate c ≡ false = ground arith in
      rw (four, low, high, laws.convert_ascii c (omega arith))

  Reads-control :
      (c : ℕ) (rest : Bytes) (p : SourcePos) (value : Bytes)
      → c < 32
      → Reads c
          (b'\\' ∷ b'u' ∷ b'0' ∷ b'0' ∷ hex_char (c / 16) ∷ hex_char (c % 16) ∷ rest)
          rest
          p
          value
  unfolding string_step advance escape unicode_escape
  Reads-control c rest p value h =
      let (q, four) =
        read_four (c / 16) (c % 16) rest (step_pos b'u' (step_pos b'\\' p)) (omega arith)
          (omega arith) in
      let same : c / 16 * 16 + c % 16 ≡ c = omega arith in
      (
        q,
        ap more (
            unicode_escape-low c _ _ rest q value p h
              (four ∙ ap (λ v. (true, v, at_bytes rest q)) same)),
      )

  Reads-quoted :
      (c : ℕ) (rest : Bytes) (p : SourcePos) (value : Bytes)
      → Reads c (quote_byte c ++ rest) rest p value
  unfolding quote_byte
  Reads-quoted c rest p value = elim (Bool-cases (c == b'"' || c == b'\\')) [
    | inl e ↦ rw e (Reads-escaped c rest p value e)
    | inr e ↦ elim (Bool-cases (c == b'\n')) [
      | inl newline ↦ rw (e, newline) (rw (==→eq c b'\n' newline) (Reads-newline rest p value))
      | inr other ↦ elim (Bool-cases (ltb c 0x20)) [
        | inl low ↦ rw (e, other, low) (Reads-control c rest p value (ground arith))
        | inr high ↦
            rw (e, other, high)
              (Reads-plain c rest p value (ground arith) (ground arith) other high)
      ]
    ]
  ]

  closing :
      (fuel : ℕ) (tail : Bytes) (p : SourcePos) (w : Bytes)
      → string_loop ch begin (suc fuel) (reading (b'"' ∷ tail) p w)
        ≡ some (reading tail (step_pos b'"' p) w)
  unfolding string_loop string_step advance
  closing fuel tail p w = refl

  -- The loop reads every quoted byte, and ends behind the closing quote.
  string_loop-quoted :
      (fuel : ℕ) (v tail : Bytes) (p : SourcePos) (w : Bytes)
      → length v < fuel
      → (q : SourcePos) × (string_loop ch begin fuel (reading (quote_bytes v ++ b'"' ∷ tail) p w)
          ≡ some (reading tail q (w ++ v)))
  unfolding string_loop quote_bytes
  string_loop-quoted zero v tail p w h = absurd (omega arith)
  string_loop-quoted (suc fuel) [] tail p w h =
      (step_pos b'"' p, rw (append-nil w) (closing fuel tail p w))
  string_loop-quoted (suc fuel) (c ∷ cs) tail p w h =
      let (q, step) = Reads-quoted c (quote_bytes cs ++ b'"' ∷ tail) p w in
      let (r, rest) = string_loop-quoted fuel cs tail q (w ++ c ∷ []) (omega arith) in
      (
        r,
        rw (append_assoc (quote_byte c) (quote_bytes cs) (b'"' ∷ tail), step)
            (rest ∙ ap (λ u. some (reading tail r u)) (append_assoc w (c ∷ []) cs)),
      )

-- What is printed for any bytes is lexed as a string token with those bytes as its value, with no
-- diagnostic, and lexing goes on right behind it.
pub lex_string-print_quoted :
    (ch : Chars) (laws : AreChars ch) (text : Bytes) (p : SourcePos) (value tail : Bytes)
    → (x : Lexed) × (lex_string ch text (at_bytes (print_quoted value ++ tail) p) ≡ some x)
      × (x.token.kind ≡ string)
      × (x.token.value ≡ value)
      × (x.cur.rest ≡ tail)
      × (x.diags ≡ [])
unfolding lex_string print_quoted advance
lex_string-print_quoted ch laws text p value tail =
    let body = quote_bytes value ++ b'"' ∷ tail in
    let h = length-quote_bytes value (b'"' ∷ tail) in
    let (q, e) =
      string_loop-quoted ch laws p (suc (suc (length body))) value tail (step_pos b'"' p) []
        (omega arith) in
    (
      end_string text p (reading tail q value),
      rw (append_assoc (quote_bytes value) (b'"' ∷ []) tail, e),
      refl,
      refl,
      refl,
      refl,
    )
