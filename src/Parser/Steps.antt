-- ===== src/Parser/Steps.antt =====
-- How the state of the parser may change, and what the primitive operations do to it.
pub mod Moves
pub mod Separators
pub mod Loops
pub mod Values
use json_schema_mlir.Prelude.{
  ℕ, ◌+◌, ◌-◌, ◌^◌, ◌≤◌, ◌<◌, ◌≡◌, refl, ◌∙◌, arith, Bool, true, false, not, ◌&&◌, ◌||◌, ◌==◌,
  ==→eq, Bool-cases, inl, inr, Option, none, some, List, [], ◌∷◌, ◌++◌, length, length-append, All,
  if◌then◌else◌,
}
use json_schema_mlir.Lexer.Source.{SourcePos}
use json_schema_mlir.Lexer.Token.{TokenKind, eof, error, comma, Token}
use json_schema_mlir.Parser.State.{
  ParseMessage, State, head_token, tok, is, behind_first, consume, report, fail, error_at_token,
  error_unclosed, bump_id,
}

-- The second stream is left when tokens that are no end of file have been consumed of the first.
pub data Behind (xs : List Token) : List Token → Type 0 where
  here : Behind xs xs
  further : {y : Token} {ys : List Token} → is eof y ≡ false → Behind xs (y ∷ ys) → Behind xs ys

pub Behind-trans : {xs ys zs : List Token} → Behind xs ys → Behind ys zs → Behind xs zs
Behind-trans b here = b
Behind-trans b (further e c) = further e (Behind-trans b c)

pub length-Behind : {xs ys : List Token} → Behind xs ys → length ys ≤ length xs
length-Behind here = omega arith
length-Behind (further e b) = let h = length-Behind b in omega arith

pub All-Behind : (P : Token → Type 0) {xs ys : List Token} → Behind xs ys → All P xs → All P ys
All-Behind P here h = h
All-Behind P (further e b) h = (All-Behind P b h).1

-- No token is an error token or begins where no error can be, and a failure was reported.
pub record IsLoud (s : State) : Type 0 where
  pub well_lexed : All (λ t. is error t ≡ false) s.rest
  pub fits : All (λ t. t.range.begin.offset < 2 ^ 32 - 1) s.rest
  pub told : s.failed ≡ true → 0 < length s.diags
  pub last : s.last_error < 2 ^ 32 - 1 → 0 < length s.diags

pub record Step (s t : State) : Type 0 where
  pub tokens : Behind s.rest t.rest
  pub ids : s.next_id ≤ t.next_id
  pub fails : s.failed ≡ true → t.failed ≡ true
  pub quiet : t.failed ≡ false → t.diags ≡ s.diags
  pub loud : IsLoud s → IsLoud t

pub stay : {s : State} → Step s s
stay = record { tokens = here; ids = omega arith; fails = λ e. e; quiet = λ e. refl; loud = λ h. h }

pub was_quiet : (b c : Bool) → (b ≡ true → c ≡ true) → c ≡ false → b ≡ false
was_quiet b c f e = ground arith

infixr 4 ◌then◌
pub ◌then◌ : {s t u : State} → Step s t → Step t u → Step s u
◌then◌ {s} {t} {u} p q = record {
  tokens = Behind-trans p.tokens q.tokens;
  ids = (let a = p.ids in let b = q.ids in omega arith);
  fails = λ e. q.fails (p.fails e);
  quiet = λ e. q.quiet e ∙ p.quiet (was_quiet t.failed u.failed q.fails e);
  loud = λ h. q.loud (p.loud h);
}

pub Step-fewer : {s t : State} → Step s t → length t.rest ≤ length s.rest
Step-fewer p = length-Behind p.tokens

-- A step that numbers no node.
pub record Move (s t : State) : Type 0 where
  pub step : Step s t
  pub same : t.next_id ≡ s.next_id

pub still : {s : State} → Move s s
still = record { step = stay; same = refl }

infixr 4 ◌thence◌
pub ◌thence◌ : {s t u : State} → Move s t → Move t u → Move s u
p thence q = record { step = p.step then q.step; same = q.same ∙ p.same }

-- A move over tokens.
pub consumed-Move :
    {s : State} (ts : List Token) (e : SourcePos)
    → Behind s.rest ts
    → Move s (record s { rest = ts; last_end = e })
consumed-Move {s} ts e b = record {
  step = record {
    tokens = b;
    ids = omega arith;
    fails = λ e. e;
    quiet = λ e. refl;
    loud = λ h. record {
      well_lexed = All-Behind _ b h.well_lexed;
      fits = All-Behind _ b h.fits;
      told = h.told;
      last = h.last;
    };
  };
  same = refl;
}

behind_first-Behind :
    (ts : List Token) → is eof (head_token ts) ≡ false → Behind ts (behind_first ts)
behind_first-Behind [] e = here
behind_first-Behind (t ∷ ts) e = further e here

pub consume-Move : (s : State) → Move s (consume s)
unfolding consume
consume-Move s = elim (Bool-cases (is eof (tok s))) [
  | inl e ↦ rw e still
  | inr e ↦
      rw e (consumed-Move (behind_first s.rest) (tok s).range.end (behind_first-Behind s.rest e))
]

length-push : {A : Type 0} (xs : List A) (x : A) → 0 < length (xs ++ x ∷ [])
length-push xs x = let e = length-append xs (x ∷ []) in omega arith

pub report-Move : (at : SourcePos) (m : ParseMessage) (s : State) → Move s (report at m s)
unfolding report
report-Move at m s = record {
  step = record {
    tokens = here;
    ids = omega arith;
    fails = λ e. refl;
    quiet = λ e. absurd (ground arith);
    loud = λ h. record {
      well_lexed = h.well_lexed;
      fits = h.fits;
      told = λ e. length-push s.diags _;
      last = λ e. length-push s.diags _;
    };
  };
  same = refl;
}

head-fits :
    (ts : List Token)
    → All (λ t. t.range.begin.offset < 2 ^ 32 - 1) ts
    → (head_token ts).range.begin.offset < 2 ^ 32 - 1
head-fits [] h = omega arith
head-fits (t ∷ ts) h = h.0

head-well_lexed :
    (ts : List Token) → All (λ t. is error t ≡ false) ts → is error (head_token ts) ≡ false
unfolding is
head-well_lexed [] h = refl
head-well_lexed (t ∷ ts) h = h.0

-- A failure that is told already, or where no loud parser is.
pub fail-Move : (s : State) → (IsLoud s → 0 < length s.diags) → Move s (fail s)
fail-Move s told = record {
  step = record {
    tokens = here;
    ids = omega arith;
    fails = λ e. refl;
    quiet = λ e. absurd (ground arith);
    loud =
        λ h. record { well_lexed = h.well_lexed; fits = h.fits; told = λ e. told h; last = h.last };
  };
  same = refl;
}

same_place :
    (s : State)
    → ((tok s).range.begin.offset == s.last_error) ≡ true
    → IsLoud s
    → 0 < length s.diags
same_place s e h = h.last (rw (← ==→eq _ _ e) (head-fits s.rest h.fits))

error_or_same_place :
    (s : State)
    → (is error (tok s) || (tok s).range.begin.offset == s.last_error) ≡ true
    → IsLoud s
    → 0 < length s.diags
error_or_same_place s e h =
    let w = head-well_lexed s.rest h.well_lexed in same_place s (ground arith) h

fail-report-Move : (at : SourcePos) (m : ParseMessage) (s : State) → Move s (report at m (fail s))
unfolding report
fail-report-Move at m s = report-Move at m s

pub error_at_token-Move : (m : ParseMessage) (s : State) → Move s (error_at_token m s)
unfolding error_at_token
error_at_token-Move m s =
    elim (Bool-cases (is error (tok s) || (tok s).range.begin.offset == s.last_error)) [
      | inl e ↦ rw e (fail-Move s (error_or_same_place s e))
      | inr e ↦ rw e (fail-report-Move (tok s).range.begin m s)
    ]

pub error_unclosed-Move :
    (close : TokenKind) (at : SourcePos) (s : State) → Move s (error_unclosed close at s)
unfolding error_unclosed
error_unclosed-Move close at s = elim (Bool-cases ((tok s).range.begin.offset == s.last_error)) [
  | inl e ↦ rw e (fail-Move s (same_place s e))
  | inr e ↦ rw e (report-Move s.last_end _ s)
]

pub bump_id-Step : (s : State) → Step s (bump_id s)
bump_id-Step s = record {
  tokens = here;
  ids = omega arith;
  fails = λ e. e;
  quiet = λ e. refl;
  loud = λ h. record { well_lexed = h.well_lexed; fits = h.fits; told = h.told; last = h.last };
}
