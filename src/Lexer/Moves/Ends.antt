-- ===== src/Lexer/Moves/Ends.antt =====
-- The bytes that are left as `lexToken` and `tokenize` go on.
use json_schema_mlir.Prelude.{
  ℕ, zero, suc, Bool, true, false, ◌&&◌, ◌==◌, Option, none, some, List, [], ◌∷◌, length, Bytes,
  ◌≡◌, refl, arith, Bool-cases, inl, inr, if◌then◌else◌, get_or, ◌≤◌, ◌<◌, bytes_eq, take, drop,
}
use mathlib.Core.Option.{none-ne-some, some-injective}
use json_schema_mlir.Lexer.Source.{SourcePos, Cursor, advance}
use json_schema_mlir.Lexer.Token.{Token, Lexed, Chars, AreChars}
use json_schema_mlir.Lexer.Moves.Tokens.{Gives, AfterSkip, skip_comment-keeps, lex_at-keeps}
use json_schema_mlir.Lexer.Comments.{
  Skipped, skipped, unterminated, skip_comment, skip_comments, after_comment, skip_whitespace,
  at_comment,
}
use json_schema_mlir.Lexer.Tokenize.{
  lex_at, lex_here, lex_behind, lex_token, Tokens, is_eof, after_token, cons_token, tokenize_from,
  tokenize, first_cursor,
}
use json_schema_mlir.Lexer.Moves.{IsKept, at_bytes, scan-keeps}

-- Fewer than `n` bytes are left.
abbrev Under : ℕ → Cursor → Type 0
Under n cur = length cur.rest < n

length-advance_le : (bs : Bytes) (p : SourcePos) → length (advance (at_bytes bs p)).rest ≤ length bs
unfolding advance
length-advance_le [] p = omega arith
length-advance_le (c ∷ cs) p = omega arith

Under-IsKept : (n : ℕ) → IsKept (Under n)
Under-IsKept n = record {
  step = λ cur h. let e = length-advance_le cur.rest cur.pos in omega arith;
}

AtMost-IsKept : (n : ℕ) → IsKept (λ cur. length cur.rest ≤ n)
AtMost-IsKept n = record {
  step = λ cur h. let e = length-advance_le cur.rest cur.pos in omega arith;
}

abbrev HasByte : Cursor → Type 0
HasByte cur = 0 < length cur.rest

length-advance_lt :
    (bs : Bytes) (p : SourcePos) → 0 < length bs → length (advance (at_bytes bs p)).rest < length bs
unfolding advance
length-advance_lt [] p h = absurd (omega arith)
length-advance_lt (c ∷ cs) p h = omega arith

advance-Under : (n : ℕ) (cur : Cursor) → HasByte cur → length cur.rest ≤ n → Under n (advance cur)
advance-Under n cur live h = let e = length-advance_lt cur.rest cur.pos live in omega arith

peek-HasByte : (bs : Bytes) (c : ℕ) → (get_or bs 0 0 == suc c) ≡ true → 0 < length bs
peek-HasByte [] c e = absurd (ground arith)
peek-HasByte (x ∷ xs) c e = omega arith

at_comment-HasByte : (cur : Cursor) → at_comment cur ≡ true → HasByte cur
at_comment-HasByte cur e = peek-HasByte cur.rest 46 (ground arith)

-- Comments were passed over, or one was unterminated and consumed a byte.
abbrev Skips : ℕ → Option Skipped → Type 0
Skips n none = ⊥
Skips n (some (skipped cur)) = length cur.rest ≤ n
Skips n (some (unterminated e)) = Under n e.cur

module _ (allow : Bool) (text : Bytes) where
  after_comment-Skips :
      (n fuel : ℕ) (r : Skipped)
      → AfterSkip (Under n) r
      → AfterSkip (Under (suc fuel)) r
      → ((cur : Cursor)
          → length cur.rest ≤ fuel
          → length cur.rest ≤ n
          → Skips n (skip_comments allow text (suc fuel) cur))
      → Skips n (after_comment (skip_comments allow text (suc fuel)) r)
  after_comment-Skips n fuel (unterminated e) h k ih = h
  after_comment-Skips n fuel (skipped cur) h k ih =
      ih (skip_whitespace cur) (scan-keeps (AtMost-IsKept fuel) _ cur (omega arith))
        (scan-keeps (AtMost-IsKept n) _ cur (omega arith))

  -- As many rounds as bytes, and one more, pass over all comments.
  skip_comments-Skips :
      (n fuel : ℕ) (cur : Cursor)
      → length cur.rest ≤ fuel
      → length cur.rest ≤ n
      → Skips n (skip_comments allow text (suc fuel) cur)
  unfolding skip_comments
  skip_comments-Skips n zero cur k h = elim (Bool-cases (allow && at_comment cur)) [
    | inr e ↦ rw (e, Skips) h
    | inl e ↦ let live = at_comment-HasByte cur (ground arith) in absurd (omega arith)
  ]
  skip_comments-Skips n (suc fuel) cur k h = elim (Bool-cases (allow && at_comment cur)) [
    | inr e ↦ rw (e, Skips) h
    | inl e ↦
        let live = at_comment-HasByte cur (ground arith) in
        rw (e, Skips)
          (after_comment-Skips n fuel (skip_comment text cur)
            (skip_comment-keeps (Under-IsKept n) text cur (advance-Under n cur live h))
            (skip_comment-keeps (Under-IsKept (suc fuel)) text cur
              (advance-Under (suc fuel) cur live k))
            (λ cur'. skip_comments-Skips n fuel cur'))
  ]

-- A token, and unless it is the end of the file a byte is consumed.
abbrev Moved : ℕ → Option Lexed → Type 0
Moved n none = ⊥
Moved n (some x) = is_eof x.token.kind ≡ false → Under n x.cur

-- The last token, and no other, is the end of the file.
abbrev pub EndsAtEof : List Token → Type 0
EndsAtEof [] = ⊥
EndsAtEof (t ∷ []) = is_eof t.kind ≡ true
EndsAtEof (t ∷ u ∷ ts) = (is_eof t.kind ≡ false) × EndsAtEof (u ∷ ts)

abbrev pub Ends : Option Tokens → Type 0
Ends none = ⊥
Ends (some (tokens, diags)) = EndsAtEof tokens

cons_token-Ends :
    (x : Lexed) (o : Option Tokens) → is_eof x.token.kind ≡ false → Ends o → Ends (cons_token x o)
cons_token-Ends x none e h = h
cons_token-Ends x (some ([], d)) e h = absurd h
cons_token-Ends x (some (t ∷ ts, d)) e h = (e, h)

Gives-Moved : (n : ℕ) (o : Option Lexed) → Gives (Under n) o → Moved n o
Gives-Moved n none (x, e, h) = absurd (none-ne-some x e)
Gives-Moved n (some y) (x, e, h) = λ _. rw (some-injective _ _ e) h

module _ (ch : Chars) (laws : AreChars ch) (allow : Bool) (text : Bytes) where
  lex_here-Moved :
      (n : ℕ) (bs : Bytes) (cur : Cursor)
      → cur.rest ≡ bs
      → length bs ≤ n
      → Moved n (lex_here ch text bs cur)
  lex_here-Moved n [] cur e h = λ k. absurd (cc)
  lex_here-Moved n (c ∷ cs) cur e h = Gives-Moved n (lex_at ch text cur) (
      lex_at-keeps (Under-IsKept n) text ch laws cur
        (advance-Under n cur (rw e (omega arith)) (rw e h)))

  lex_behind-Moved : (n : ℕ) (o : Option Skipped) → Skips n o → Moved n (lex_behind ch text o)
  lex_behind-Moved n none h = absurd h
  lex_behind-Moved n (some (unterminated e)) h = λ _. h
  lex_behind-Moved n (some (skipped cur)) h = lex_here-Moved n cur.rest cur refl h

  lex_token-Moved :
      (n : ℕ) (cur : Cursor) → length cur.rest ≤ n → Moved n (lex_token ch allow text cur)
  unfolding lex_token
  lex_token-Moved n cur h =
      let begin = skip_whitespace cur in
      let j = scan-keeps (AtMost-IsKept n) _ cur h in
      lex_behind-Moved n (skip_comments allow text (suc (length begin.rest)) begin)
        (skip_comments-Skips allow text n (length begin.rest) begin (omega arith) j)

  after_token-Ends :
      (n : ℕ) (o : Option Lexed) (again : Cursor → Option Tokens)
      → Moved n o
      → ((cur : Cursor) → Under n cur → Ends (again cur))
      → Ends (after_token again o)
  after_token-Ends n none again h ih = absurd h
  after_token-Ends n (some x) again h ih = elim (Bool-cases (is_eof x.token.kind)) [
    | inl e ↦ rw (e, Ends) e
    | inr e ↦ rw (e, Ends) (cons_token-Ends x (again x.cur) e (ih x.cur (h e)))
  ]

  tokenize_from-Ends :
      (fuel : ℕ) (cur : Cursor)
      → length cur.rest < fuel
      → Ends (tokenize_from ch allow text fuel cur)
  unfolding tokenize_from
  tokenize_from-Ends zero cur h = absurd (omega arith)
  tokenize_from-Ends (suc fuel) cur h =
      after_token-Ends fuel (lex_token ch allow text cur) (tokenize_from ch allow text fuel)
        (lex_token-Moved fuel cur (omega arith)) (λ c k. tokenize_from-Ends fuel c k)

length-drop_le : (n : ℕ) (bs : Bytes) → length (drop n bs) ≤ length bs
length-drop_le zero bs = omega arith
length-drop_le (suc n) [] = omega arith
length-drop_le (suc n) (c ∷ cs) = let h = length-drop_le n cs in omega arith

if-le :
    (b : Bool) (x y : Cursor) (n : ℕ)
    → length x.rest ≤ n
    → length y.rest ≤ n
    → length (if b then x else y).rest ≤ n
if-le true x y n p q = p
if-le false x y n p q = q

first_cursor-le : (text : Bytes) → length (first_cursor text).rest ≤ length text
first_cursor-le text =
    let h = length-drop_le 3 text in
    if-le (bytes_eq (take 3 text) (0xEF ∷ 0xBB ∷ 0xBF ∷ [])) _ _ (length text) h (omega arith)

-- On every buffer, with comments allowed or not, the tokenizer returns: its loops never run out of
-- fuel, and of the tokens it returns the last, and no other, is the end of the file.
pub tokenize-Ends :
    (ch : Chars) (laws : AreChars ch) (allow : Bool) (text : Bytes) → Ends (tokenize ch allow text)
unfolding tokenize
tokenize-Ends ch laws allow text =
    let h = first_cursor-le text in
    tokenize_from-Ends ch laws allow text (suc (length text)) (first_cursor text) (omega arith)
