-- ===== src/Parser/Steps/Separators.antt =====
-- Errors, the token that is consumed, and separators.
use json_schema_mlir.Prelude.{
  ==→eq, ◌==◌, refl, ℕ, suc, ◌<◌, ◌≡◌, ◌∙◌, arith, Bool, true, false, not, ◌||◌, Bool-cases, inl,
  inr, some, List, [], ◌∷◌, length, if◌then◌else◌,
}
use json_schema_mlir.Lexer.Source.{SourcePos}
use json_schema_mlir.Lexer.Token.{error, TokenKind, eof, comma, Token}
use json_schema_mlir.Parser.State.{
  ParseMessage, kind_id, error_unclosed, State, head_token, behind_first, tok, is, consume, report,
  error_at_token, trailing_comma, expected_separator,
}
use json_schema_mlir.Parser.Loops.{skip_to_separator, separator_loop, parse_separator}
use json_schema_mlir.Parser.Steps.{
  Move, ◌thence◌, Step-fewer, consume-Move, report-Move, error_at_token-Move, error_unclosed-Move,
}
use json_schema_mlir.Parser.Steps.Moves.{
  Gives, gives, after, weaken, Stops, skip_to_separator-Move, skip_to_separator-Stops,
}
use json_schema_mlir.Parser.Grammar.{One, one}

length-behind_first :
    (ts : List Token) → is eof (head_token ts) ≡ false → length (behind_first ts) < length ts
unfolding is
length-behind_first [] e = absurd (ground arith)
length-behind_first (t ∷ ts) e = omega arith

consume-less : (s : State) → is eof (tok s) ≡ false → length (consume s).rest < length s.rest
unfolding consume
consume-less s e = rw e (length-behind_first s.rest e)

pub closes-not-eof :
    (close : TokenKind) (t : Token)
    → (kind_id close == 11) ≡ false
    → is close t ≡ true
    → is eof t ≡ false
unfolding is
closes-not-eof close t c e = ground (arith, ==→eq (kind_id t.kind) (kind_id close))

first_One :
    (kind : TokenKind) (ts : List Token)
    → is eof (head_token ts) ≡ false
    → is kind (head_token ts) ≡ true
    → One kind ts (behind_first ts)
unfolding is
first_One kind [] e q = absurd (ground arith)
first_One kind (t ∷ ts) e q = one q

pub report-fails : (at : SourcePos) (m : ParseMessage) (s : State) → (report at m s).failed ≡ true
unfolding report
report-fails at m s = refl

pub error_unclosed-fails :
    (close : TokenKind) (at : SourcePos) (s : State) → (error_unclosed close at s).failed ≡ true
unfolding error_unclosed report
error_unclosed-fails close at s = elim (Bool-cases ((tok s).range.begin.offset == s.last_error)) [
  | inl e ↦ rw e refl
  | inr e ↦ rw e refl
]

pub error_at_token-fails : (m : ParseMessage) (s : State) → (error_at_token m s).failed ≡ true
unfolding error_at_token report
error_at_token-fails m s =
    elim (Bool-cases (is error (tok s) || (tok s).range.begin.offset == s.last_error)) [
      | inl e ↦ rw e refl
      | inr e ↦ rw e refl
    ]

skip_to_separator-fails :
    (close : TokenKind) (s : State) → s.failed ≡ true → (skip_to_separator close s).failed ≡ true
skip_to_separator-fails close s f = (skip_to_separator-Move close s).step.fails f

comma-not-eof : (t : Token) → is comma t ≡ true → is eof t ≡ false
unfolding is
comma-not-eof t e = ground arith

-- What a consumed token was.
pub consume-One :
    (kind : TokenKind) (s : State)
    → is eof (tok s) ≡ false
    → is kind (tok s) ≡ true
    → One kind s.rest (consume s).rest
unfolding consume
consume-One kind s e q = rw e (first_One kind s.rest e q)

-- The token read by a separator that goes on, or ends the loop.
abbrev pub separator_kind : TokenKind → Bool → TokenKind
separator_kind close true = comma
separator_kind close false = close

-- To go on costs a token, and no node is numbered.
pub record IsSeparated (close : TokenKind) (s : State) (b : Bool) (t : State) : Type 0 where
  pub costs : b ≡ true → length t.rest < length s.rest
  pub same : t.next_id ≡ s.next_id
  pub reads : t.failed ≡ false → One (separator_kind close b) s.rest t.rest

failed-Gives :
    (close : TokenKind) {s t : State}
    → Move s t
    → t.failed ≡ true
    → Gives s (IsSeparated close s) (some (false, t))
failed-Gives close m f = gives m.step (record {
  costs = λ h. absurd (ground arith);
  same = m.same;
  reads = λ h. absurd (ground arith);
})

comma_then :
    (close : TokenKind) (s : State)
    → is comma (tok s) ≡ true
    → Gives s (IsSeparated close s) (
        let behind_comma = consume s in
        if not (is close (tok behind_comma))
        then some (true, behind_comma)
        else some (false, consume (report (tok s).range.begin trailing_comma behind_comma)))
comma_then close s e = elim (Bool-cases (is close (tok (consume s)))) [
  | inl q ↦ rw q (
      failed-Gives close
        (consume-Move s
          thence report-Move (tok s).range.begin trailing_comma (consume s)
          thence consume-Move _)
        ((consume-Move _).step.fails (report-fails (tok s).range.begin trailing_comma (consume s))))
  | inr q ↦ rw q (
      gives (consume-Move s).step (record {
        costs = λ h. consume-less s (comma-not-eof (tok s) e);
        same = (consume-Move s).same;
        reads = λ h. consume-One comma s (comma-not-eof (tok s) e) e;
      }))
]

separator_loop-Stops :
    (fuel : ℕ) (close : TokenKind) (at : SourcePos) (s : State)
    → (kind_id close == 11) ≡ false
    → Stops close (tok s)
    → Gives s (IsSeparated close s) (separator_loop (suc fuel) close at s)
unfolding separator_loop
separator_loop-Stops fuel close at s c stop = elim (Bool-cases (is comma (tok s))) [
  | inl e ↦ rw e (comma_then close s e)
  | inr e ↦ elim (Bool-cases (is close (tok s))) [
    | inl q ↦
        rw (e, q)
          (gives (consume-Move s).step (record {
            costs = λ h. absurd (ground arith);
            same = (consume-Move s).same;
            reads = λ h. consume-One close s (closes-not-eof close (tok s) c q) q;
          }))
    | inr q ↦
        let r : is eof (tok s) ≡ true = ground arith in
        rw (e, q, r)
          (failed-Gives close (error_unclosed-Move close at s) (error_unclosed-fails close at s))
  ]
]

recover-Gives :
    (close : TokenKind) (at : SourcePos) (s : State)
    → (kind_id close == 11) ≡ false
    → Gives s (IsSeparated close s) (
        separator_loop 1 close at
          (skip_to_separator close (error_at_token (expected_separator close) s)))
recover-Gives close at s c =
    let t = error_at_token (expected_separator close) s in
    let p =
      error_at_token-Move (expected_separator close) s thence skip_to_separator-Move close t in
    let n = Step-fewer p.step in
    after p.step (
      weaken
        (λ b u q h. record {
          costs = λ e. let m = h.costs e in omega arith;
          same = h.same ∙ p.same;
          reads = λ e.
              let f = q.fails (
                skip_to_separator-fails close t
                  (error_at_token-fails (expected_separator close) s)) in
              absurd (ground arith);
        })
        (separator_loop-Stops 0 close at (skip_to_separator close t) c
          (skip_to_separator-Stops close t)))

pub parse_separator-Gives :
    (close : TokenKind) (at : SourcePos) (s : State)
    → (kind_id close == 11) ≡ false
    → Gives s (IsSeparated close s) (parse_separator close at s)
unfolding parse_separator separator_loop
parse_separator-Gives close at s k =
    elim (Bool-cases (is eof (tok s) || (is comma (tok s) || is close (tok s)))) [
      | inl stop ↦ separator_loop-Stops 1 close at s k stop
      | inr e ↦
          let a : is comma (tok s) ≡ false = ground arith in
          let b : is close (tok s) ≡ false = ground arith in
          let c : is eof (tok s) ≡ false = ground arith in rw (a, b, c) (recover-Gives close at s k)
    ]
