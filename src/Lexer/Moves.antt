-- ===== src/Lexer/Moves.antt =====
-- The lexer moves by `advance` alone: what is kept by `advance`, at words and numbers.
pub mod Strings
pub mod Tokens
pub mod Ends
use json_schema_mlir.Prelude.{
  ℕ, zero, suc, Bool, true, false, not, ◌&&◌, ◌||◌, ◌==◌, List, [], ◌∷◌, Bytes, ◌≡◌, refl, arith,
  Bool-cases, inl, inr, if◌then◌else◌, bytes_eq,
}
use json_schema_mlir.Lexer.Source.{
  SourcePos, Cursor, advance, step_pos, scan_from, scan, peek, slice,
}
use json_schema_mlir.Lexer.Token.{
  Lexed, Message, leading_zeros, digit_after_minus, digit_after_point, digit_in_exponent,
  invalid_in_number, Chars, AreChars,
}
use json_schema_mlir.Lexer.Words.{lex_word, true_text, false_text, null_text}
use json_schema_mlir.Lexer.Numbers.{
  fail_number, end_number, skip_sign, exponent, fraction, integer, lex_number,
}

-- `advance` keeps `I`.
pub record IsKept (I : Cursor → Type 0) : Type 0 where
  pub step : (cur : Cursor) → I cur → I (advance cur)

abbrev pub at_bytes : Bytes → SourcePos → Cursor
at_bytes rest pos = record { rest = rest; pos = pos }

pub if-keeps : (I : Cursor → Type 0) (b : Bool) (x y : Cursor) → I x → I y → I (if b then x else y)
if-keeps I true x y p q = p
if-keeps I false x y p q = q

pub if-Lexed :
    (I : Cursor → Type 0) (b : Bool) (x y : Lexed) → I x.cur → I y.cur → I (if b then x else y).cur
if-Lexed I true x y p q = p
if-Lexed I false x y p q = q

module _ {I : Cursor → Type 0} (kept : IsKept I) where
  pub step_bytes :
      (c : ℕ) (cs : Bytes) (p : SourcePos)
      → I (at_bytes (c ∷ cs) p)
      → I (at_bytes cs (step_pos c p))
  unfolding advance
  step_bytes c cs p i = kept.step (at_bytes (c ∷ cs) p) i

  pub scan_from-keeps :
      (test : ℕ → Bool) (bs : Bytes) (p : SourcePos) → I (at_bytes bs p) → I (scan_from test bs p)
  unfolding scan_from
  scan_from-keeps test [] p i = i
  scan_from-keeps test (c ∷ cs) p i =
      if-keeps I (test c) _ _ (scan_from-keeps test cs (step_pos c p) (step_bytes c cs p i)) i

  pub scan-keeps : (test : ℕ → Bool) (cur : Cursor) → I cur → I (scan test cur)
  scan-keeps test cur i = scan_from-keeps test cur.rest cur.pos i

  -- A scan whose first byte passes the test keeps what holds behind that byte.
  pub scan_from-strict :
      (test : ℕ → Bool) (bs : Bytes) (p : SourcePos)
      → test (peek (at_bytes bs p) 0) ≡ true
      → I (advance (at_bytes bs p))
      → I (scan_from test bs p)
  unfolding scan_from advance
  scan_from-strict test [] p e i = i
  scan_from-strict test (c ∷ cs) p e i = rw e (scan_from-keeps test cs (step_pos c p) i)

  pub scan-strict :
      (test : ℕ → Bool) (cur : Cursor)
      → test (peek cur 0) ≡ true
      → I (advance cur)
      → I (scan test cur)
  scan-strict test cur e i = scan_from-strict test cur.rest cur.pos e i

  skip_sign-keeps : (cur : Cursor) → I cur → I (skip_sign cur)
  unfolding skip_sign
  skip_sign-keeps cur i =
      if-keeps I (peek cur 0 == b'+' || peek cur 0 == b'-') _ _ (kept.step cur i) i

  module _ (ch : Chars) (text : Bytes) where
    lex_word-tokens :
        (cur : Cursor)
        → I (scan (λ c. ch.is_alnum c || c == b'_') cur)
        → I (lex_word ch text cur).cur
    unfolding lex_word
    lex_word-tokens cur i =
        let word =
          slice text cur.pos.offset (scan (λ c. ch.is_alnum c || c == b'_') cur).pos.offset in
        if-Lexed I (bytes_eq word true_text) _ _ i (
          if-Lexed I (bytes_eq word false_text) _ _ i
            (if-Lexed I (bytes_eq word null_text) _ _ i i))

    -- A word consumes its first byte.
    pub lex_word-keeps :
        AreChars ch
        → (cur : Cursor) → (ch.is_alpha (peek cur 0) || peek cur 0 == b'_') ≡ true
        → I (advance cur)
        → I (lex_word ch text cur).cur
    lex_word-keeps laws cur e i = lex_word-tokens cur (
        scan-strict (λ c. ch.is_alnum c || c == b'_') cur
          (ground (arith, laws.is_alnum_iff (peek cur 0))) i)

    module _ (begin : SourcePos) where
      fail_number-keeps :
          (m : Message) (cur : Cursor) → I cur → I (fail_number ch text begin m cur).cur
      unfolding fail_number
      fail_number-keeps m cur i = scan-keeps _ cur i

      end_number-keeps : (cur : Cursor) → I cur → I (end_number ch text begin cur).cur
      unfolding end_number
      end_number-keeps cur i =
          if-Lexed I (ch.is_alpha (peek cur 0) || peek cur 0 == b'.') _ _
            (fail_number-keeps invalid_in_number cur i) i

      exponent-keeps : (cur : Cursor) → I cur → I (exponent ch text begin cur).cur
      unfolding exponent
      exponent-keeps cur i =
          let signed = skip_sign (advance cur) in
          let j = skip_sign-keeps (advance cur) (kept.step cur i) in
          if-Lexed I (peek cur 0 == b'e' || peek cur 0 == b'E') _ _
            (if-Lexed I (not (ch.is_digit (peek signed 0))) _ _
              (fail_number-keeps digit_in_exponent signed j)
              (end_number-keeps (scan ch.is_digit signed) (scan-keeps ch.is_digit signed j)))
            (end_number-keeps cur i)

      fraction-keeps : (cur : Cursor) → I cur → I (fraction ch text begin cur).cur
      unfolding fraction
      fraction-keeps cur i =
          let digits = advance cur in
          let j = kept.step cur i in
          if-Lexed I (peek cur 0 == b'.') _ _
            (if-Lexed I (not (ch.is_digit (peek digits 0))) _ _
              (fail_number-keeps digit_after_point digits j)
              (exponent-keeps (scan ch.is_digit digits) (scan-keeps ch.is_digit digits j)))
            (exponent-keeps cur i)

      zero-keeps :
          (read : Cursor)
          → I read
          → I
              (if ch.is_digit (peek read 0)
                then fail_number ch text begin leading_zeros read
                else fraction ch text begin read).cur
      zero-keeps read i =
          if-Lexed I (ch.is_digit (peek read 0)) _ _ (fail_number-keeps leading_zeros read i)
            (fraction-keeps read i)

      integer-keeps : (cur : Cursor) → I cur → I (integer ch text begin cur).cur
      unfolding integer
      integer-keeps cur i =
          if-Lexed I (peek cur 0 == b'0') _ _ (zero-keeps (advance cur) (kept.step cur i)) (
            if-Lexed I (ch.is_digit (peek cur 0)) _ _
              (fraction-keeps (scan ch.is_digit cur) (scan-keeps ch.is_digit cur i))
              (fail_number-keeps digit_after_minus cur i))

      -- An integer part that begins with a digit consumes it.
      integer-strict :
          (cur : Cursor)
          → ch.is_digit (peek cur 0) ≡ true
          → I (advance cur)
          → I (integer ch text begin cur).cur
      unfolding integer
      integer-strict cur e i =
          if-Lexed I (peek cur 0 == b'0') _ _ (zero-keeps (advance cur) i)
            (rw e (fraction-keeps (scan ch.is_digit cur) (scan-strict ch.is_digit cur e i)))

    -- A number consumes its first byte.
    pub lex_number-keeps :
        (cur : Cursor)
        → (peek cur 0 == b'-' || ch.is_digit (peek cur 0)) ≡ true
        → I (advance cur)
        → I (lex_number ch text cur).cur
    unfolding lex_number
    lex_number-keeps cur e i = elim (Bool-cases (peek cur 0 == b'-')) [
      | inl minus ↦ rw minus (integer-keeps cur.pos (advance cur) i)
      | inr digit ↦ rw digit (integer-strict cur.pos cur (ground arith) i)
    ]
