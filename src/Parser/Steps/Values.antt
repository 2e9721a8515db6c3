-- ===== src/Parser/Steps/Values.antt =====
-- `skipValue`, `badValue`, `parseNumber` and `checkUnique` as steps.
use json_schema_mlir.Prelude.{
  ℕ, zero, suc, ◌≡◌, refl, sym, ap, ◌∙◌, arith, Bool, true, false, Bool-cases, inl, inr, Option,
  none, some, Bytes, if◌then◌else◌, is_some,
}
use mathlib.Core.Option.{none-ne-some, some-injective}
use json_schema_mlir.Float.{Double}
use json_schema_mlir.Lexer.Source.{SourcePos}
use json_schema_mlir.Lexer.Token.{
  TokenKind, l_brace, r_brace, l_square, r_square, colon, comma, string, number, true_word,
  false_word, null_word, eof, error, Token,
}
use json_schema_mlir.Parser.State.{
  ParseMessage, State, tok, is, consume, report, fail, expected_value, too_deep,
  number_out_of_range, duplicate_key,
}
use json_schema_mlir.Parser.Loops.{Parse}
use json_schema_mlir.Parser.Values.{
  Done, skip_kind, skip_too_deep, skip_bracket, skip_value, nothing, bad_value_at, Reading,
  finite_of, number_read, parse_number, Seen, seen_at, when_new, unless_seen,
}
use json_schema_mlir.Parser.Steps.{
  stay, Move, ◌thence◌, consume-Move, report-Move, fail-Move, error_at_token-Move, head-well_lexed,
}
use json_schema_mlir.Parser.Steps.Moves.{
  Gives, gives, and_then-Gives, after, weaken, Same, Gives-still, skip_nested-Move,
}
use json_schema_mlir.Parser.Steps.Separators.{error_at_token-fails}
use json_schema_mlir.Parser.Steps.Loops.{IsStable, parse_array-Gives, parse_object-Gives}

Same-IsStable : (s : State) → IsStable {L = Done} (Same s)
Same-IsStable s = record { carry = λ p h. p.same ∙ h }

-- A move before.
pub Gives-after :
    {A : Type 0} {s t : State} {o : Option (A × State)}
    → Move s t
    → Gives t (Same t) o
    → Gives s (Same s) o
Gives-after p g = weaken (λ a u q e. e ∙ p.same) (after p.step g)

kind-is_error : (t : Token) → t.kind ≡ error → is error t ≡ true
unfolding is
kind-is_error t e = rw e refl

pub skip_error-Move : (s : State) → (tok s).kind ≡ error → Move s (consume (fail s))
skip_error-Move s e =
    fail-Move s (λ h.
      let w = head-well_lexed s.rest h.well_lexed in
      let q = kind-is_error (tok s) e in absurd (ground arith))
    thence consume-Move (fail s)

skip_kind-Gives :
    (nested : Parse Done) (k : TokenKind) (s : State)
    → (tok s).kind ≡ k
    → Gives s (Same s) (nested s)
    → Gives s (Same s) (skip_kind nested k s)
unfolding skip_kind
skip_kind-Gives nested string s e n = Gives-still (consume-Move s)
skip_kind-Gives nested number s e n = Gives-still (consume-Move s)
skip_kind-Gives nested true_word s e n = Gives-still (consume-Move s)
skip_kind-Gives nested false_word s e n = Gives-still (consume-Move s)
skip_kind-Gives nested null_word s e n = Gives-still (consume-Move s)
skip_kind-Gives nested error s e n = Gives-still (skip_error-Move s e)
skip_kind-Gives nested l_brace s e n = n
skip_kind-Gives nested l_square s e n = n
skip_kind-Gives nested r_brace s e n = Gives-still (error_at_token-Move expected_value s)
skip_kind-Gives nested r_square s e n = Gives-still (error_at_token-Move expected_value s)
skip_kind-Gives nested comma s e n = Gives-still (error_at_token-Move expected_value s)
skip_kind-Gives nested eof s e n = Gives-still (error_at_token-Move expected_value s)
skip_kind-Gives nested colon s e n =
    Gives-still (error_at_token-Move expected_value s thence consume-Move _)

skip_bracket-Gives :
    (inner : Parse Done) (s : State)
    → ((t : State) → Gives t (Same t) (inner t))
    → Gives s (Same s) (skip_bracket inner s)
unfolding skip_bracket
skip_bracket-Gives inner s k =
    let each : (l : Done) (t : State) → Same s l t → Gives t (Same s) (inner t) =
      λ l t e. weaken (λ a u q f. f ∙ e) (k t) in
    elim (Bool-cases (is l_brace (tok s))) [
      | inl e ↦ rw e (parse_object-Gives (Same-IsStable s) (λ key l. inner) tt s (λ key. each) refl)
      | inr e ↦ rw e (parse_array-Gives (Same-IsStable s) (λ l. inner) tt s each refl)
    ]

-- Skipping a value returns, and numbers no node.
pub skip_value-Gives : (levels : ℕ) (s : State) → Gives s (Same s) (skip_value levels s)
unfolding skip_value
skip_value-Gives zero s =
    skip_kind-Gives skip_too_deep (tok s).kind s refl
      (Gives-still (error_at_token-Move too_deep s thence skip_nested-Move _))
skip_value-Gives (suc levels) s =
    skip_kind-Gives (skip_bracket (skip_value levels)) (tok s).kind s refl
      (skip_bracket-Gives (skip_value levels) s (skip_value-Gives levels))

-- A result is missing only in a failed parse.
abbrev pub Present : {A : Type 0} → Option A → State → Type 0
Present o t = is_some o ≡ false → t.failed ≡ true

-- No result, and the parse has failed.
abbrev pub Refused : {A : Type 0} → State → Option A → State → Type 0
Refused s o t = (o ≡ none) × (t.failed ≡ true) × (t.next_id ≡ s.next_id)

pub nothing-Gives :
    {A : Type 0} {s t : State} {o : Option (Done × State)}
    → Move s t
    → t.failed ≡ true
    → Gives t (Same t) o
    → Gives s (Refused s) (nothing {A = A} o)
nothing-Gives p f (gives q e) = after p.step (gives q (refl, q.fails f, e ∙ p.same))

pub bad_value_at-Gives :
    {A : Type 0} (m : ParseMessage) (levels : ℕ) (s : State)
    → Gives s (Refused s) (bad_value_at {A = A} m levels s)
unfolding bad_value_at
bad_value_at-Gives m levels s =
    nothing-Gives (error_at_token-Move m s) (error_at_token-fails m s) (skip_value-Gives levels _)

-- A number was read, or the parse has failed.
pub record IsRead {D : Type 0} ⦃d : Double D⦄ (s : State) (o : Option (D × Bytes)) (t : State)
    : Type 0 where
  pub present : Present o t
  pub same : t.next_id ≡ s.next_id
  pub finite : (x : D) (spelling : Bytes) → o ≡ some (x, spelling) → d.is_finite x ≡ true

IsRead-after :
    {D : Type 0} ⦃d : Double D⦄ {s t u : State} {o : Option (D × Bytes)}
    → Move s t
    → IsRead t o u
    → IsRead s o u
IsRead-after p h = record { present = h.present; same = h.same ∙ p.same; finite = h.finite }

Refused-IsRead :
    {D : Type 0} ⦃d : Double D⦄ (s : State) (o : Option (D × Bytes)) (t : State)
    → Refused s o t
    → IsRead s o t
Refused-IsRead s o t (e, f, i) = record {
  present = λ h. f;
  same = i;
  finite = λ x spelling q. absurd (none-ne-some (x, spelling) (sym e ∙ q));
}

if-some :
    {A : Type 0} (b : Bool) (y x : A) → (if b then some y else none) ≡ some x → (b ≡ true) × (y ≡ x)
if-some true y x e = (refl, some-injective y x e)
if-some false y x e = absurd (none-ne-some x e)

module _ {D : Type 0} ⦃d : Double D⦄ (r : Reading D) where
  finite_of-some : (o : Option D) (x : D) → finite_of r o ≡ some x → d.is_finite x ≡ true
  finite_of-some none x e = absurd (none-ne-some x e)
  finite_of-some (some y) x e = let (f, q) = if-some (d.is_finite y) y x e in rw (← q) f

  number_read-Gives :
      (t : Token) (o : Option D) (s : State)
      → ((x : D) → o ≡ some x → d.is_finite x ≡ true)
      → Gives s (IsRead s) (number_read r t o s)
  unfolding report
  number_read-Gives t none s h =
      gives (report-Move t.range.begin number_out_of_range s).step (record {
        present = λ e. refl;
        same = refl;
        finite = λ x spelling q. absurd (none-ne-some (x, spelling) q);
      })
  number_read-Gives t (some x) s h = gives stay (record {
    present = λ e. absurd (ground arith);
    same = refl;
    finite = λ y spelling q. h y (ap {B = Option D} (λ p. some (p.0)) (some-injective _ _ q));
  })

  pub parse_number-Gives :
      (key : Token) (levels : ℕ) (s : State) → Gives s (IsRead s) (parse_number r key levels s)
  unfolding parse_number
  parse_number-Gives key levels s = elim (Bool-cases (is number (tok s))) [
    | inl e ↦ rw e (
        weaken (λ o t p h. IsRead-after (consume-Move s) h)
          (after (consume-Move s).step (
            number_read-Gives (tok s) (finite_of r (r.as_double (tok s).spelling)) (consume s)
              (finite_of-some (r.as_double (tok s).spelling)))))
    | inr e ↦ rw e (weaken (λ o t p h. Refused-IsRead s o t h) (bad_value_at-Gives _ levels s))
  ]

module _ {L : Type 0} {P : L → State → Type 0} (stable : IsStable P) where
  when_new-Gives :
      (o : Option SourcePos) (key : Token) (levels : ℕ) (l : L) (first : Parse L) (s : State)
      → P l s
      → (o ≡ none → Gives s P (first s))
      → Gives s P (when_new o key levels l first s)
  when_new-Gives none key levels l first s h k = k refl
  when_new-Gives (some at) key levels l first s h k =
      let p = report-Move key.range.begin (duplicate_key key.value at) s in
      and_then-Gives (Gives-after p (skip_value-Gives levels _))
        (λ u t q e. gives stay (stable.carry (record { step = q; same = e }) h))

  -- A key seen before changes nothing but the state; a new one goes to its parser.
  pub unless_seen-Gives :
      (seen : Seen) (key : Token) (levels : ℕ) (l : L) (first : Parse L) (s : State)
      → P l s
      → (seen_at seen key.value ≡ none → Gives s P (first s))
      → Gives s P (unless_seen seen key levels l first s)
  unfolding unless_seen
  unless_seen-Gives seen key levels l first s h k =
      when_new-Gives (seen_at seen key.value) key levels l first s h k
