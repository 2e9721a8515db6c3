-- ===== src/Parser/Steps/Moves.antt =====
-- The loops over tokens alone, and results with a postcondition.
use json_schema_mlir.Prelude.{
  ℕ, ◌≡◌, refl, arith, true, false, ◌&&◌, ◌||◌, ◌==◌, Bool-cases, inl, inr, Option, some, List, [],
  ◌∷◌, if◌then◌else◌,
}
use json_schema_mlir.Lexer.Source.{SourcePos}
use json_schema_mlir.Lexer.Token.{TokenKind, eof, comma, Token}
use json_schema_mlir.Parser.State.{State, head_token, tok, is}
use json_schema_mlir.Parser.Loops.{
  Parse, and_then, skip_from, depth_behind, skip_to_separator, nested_from, nested_behind,
  skip_nested,
}
use json_schema_mlir.Parser.Steps.{
  Behind, here, further, Behind-trans, Step, ◌then◌, Move, consumed-Move,
}

-- The parse returns, by a step from `s`, with a value and a state that meet `P`.
pub data Gives {A : Type 0} (s : State) (P : A → State → Type 0) : Option (A × State) → Type 0 where
  gives : {a : A} {t : State} → Step s t → P a t → Gives s P (some (a, t))

module _ {A : Type 0} {P : A → State → Type 0} where
  -- A step before.
  pub after : {s t : State} {o : Option (A × State)} → Step s t → Gives t P o → Gives s P o
  after p (gives q h) = gives (p then q) h

  pub weaken :
      {Q : A → State → Type 0} {s : State} {o : Option (A × State)}
      → ((a : A) (t : State) → Step s t → P a t → Q a t)
      → Gives s P o
      → Gives s Q o
  weaken k (gives {a} {t} p h) = gives p (k a t p h)

pub and_then-Gives :
    {A B : Type 0} {P : A → State → Type 0} {Q : B → State → Type 0} {s : State}
    {o : Option (A × State)} {f : A → Parse B}
    → Gives s P o
    → ((a : A) (t : State) → Step s t → P a t → Gives t Q (f a t))
    → Gives s Q (and_then o f)
and_then-Gives (gives {a} {t} p h) k = after p (k a t p h)

-- The last number is still that of `s`.
abbrev pub Same : {A : Type 0} → State → A → State → Type 0
Same s a t = t.next_id ≡ s.next_id

pub Gives-still : {A : Type 0} {a : A} {s t : State} → Move s t → Gives s (Same s) (some (a, t))
Gives-still m = gives m.step m.same

further_on : {t : Token} {ts us : List Token} → is eof t ≡ false → Behind ts us → Behind (t ∷ ts) us
further_on e b = Behind-trans (further e here) b

skip_from-Behind :
    (close : TokenKind) (depth : ℕ) (ts : List Token) (e : SourcePos)
    → Behind ts (skip_from close depth ts e).0
unfolding skip_from
skip_from-Behind close depth [] e = here
skip_from-Behind close depth (t ∷ ts) e =
    let rest = skip_from-Behind close (depth_behind t depth) ts t.range.end in
    elim (Bool-cases (is eof t)) [
      | inl q ↦ rw q here
      | inr q ↦ elim (Bool-cases (depth == 0 && (is comma t || is close t))) [
        | inl r ↦ rw (q, r) here
        | inr r ↦ rw (q, r) (further_on q rest)
      ]
    ]

pub skip_to_separator-Move : (close : TokenKind) (s : State) → Move s (skip_to_separator close s)
unfolding skip_to_separator
skip_to_separator-Move close s =
    consumed-Move (skip_from close 0 s.rest s.last_end).0 (skip_from close 0 s.rest s.last_end).1
      (skip_from-Behind close 0 s.rest s.last_end)

nested_from-Behind :
    (depth : ℕ) (ts : List Token) (e : SourcePos) → Behind ts (nested_from depth ts e).0
unfolding nested_from
nested_from-Behind depth [] e = here
nested_from-Behind depth (t ∷ ts) e =
    let rest = nested_from-Behind (nested_behind t depth) ts t.range.end in
    elim (Bool-cases (is eof t)) [
      | inl q ↦ rw q here
      | inr q ↦ elim (Bool-cases (nested_behind t depth == 0 || is eof (head_token ts))) [
        | inl r ↦ rw (q, r) (further q here)
        | inr r ↦ rw (q, r) (further_on q rest)
      ]
    ]

pub skip_nested-Move : (s : State) → Move s (skip_nested s)
unfolding skip_nested
skip_nested-Move s =
    consumed-Move (nested_from 0 s.rest s.last_end).0 (nested_from 0 s.rest s.last_end).1
      (nested_from-Behind 0 s.rest s.last_end)

abbrev pub Stops : TokenKind → Token → Type 0
Stops close t = (is eof t || (is comma t || is close t)) ≡ true

skip_from-Stops :
    (close : TokenKind) (depth : ℕ) (ts : List Token) (e : SourcePos)
    → Stops close (head_token (skip_from close depth ts e).0)
unfolding skip_from is
skip_from-Stops close depth [] e = refl
skip_from-Stops close depth (t ∷ ts) e =
    let rest = skip_from-Stops close (depth_behind t depth) ts t.range.end in
    elim (Bool-cases (is eof t)) [
      | inl q ↦ rw (q, q) refl
      | inr q ↦ elim (Bool-cases (depth == 0 && (is comma t || is close t))) [
        | inl r ↦ rw (q, r) ground arith
        | inr r ↦ rw (q, r) rest
      ]
    ]

pub skip_to_separator-Stops :
    (close : TokenKind) (s : State) → Stops close (tok (skip_to_separator close s))
unfolding skip_to_separator
skip_to_separator-Stops close s = skip_from-Stops close 0 s.rest s.last_end
