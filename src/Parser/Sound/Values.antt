-- ===== src/Parser/Sound/Values.antt =====
-- What `skipValue` has read.
use json_schema_mlir.Prelude.{
  ℕ, zero, suc, ◌≡◌, ◌⊎◌, refl, ◌==◌, arith, true, false, Bool-cases, inl, inr, some, List, [], ◌∷◌,
}
use json_schema_mlir.Lexer.Token.{
  TokenKind, l_brace, r_brace, l_square, r_square, colon, comma, string, number, true_word,
  false_word, null_word, eof, error, Token,
}
use json_schema_mlir.Parser.State.{
  State, head_token, behind_first, tok, is, kind_id, consume, fail, error_at_token, expected_value,
  too_deep,
}
use json_schema_mlir.Parser.Loops.{Parse}
use json_schema_mlir.Parser.Values.{Done, skip_kind, skip_too_deep, skip_bracket, skip_value}
use json_schema_mlir.Parser.Grammar.{IsAtom, atom, is_atom, IsObject, IsArray, IsValue}
use json_schema_mlir.Parser.Steps.{◌thence◌, consume-Move, error_at_token-Move}
use json_schema_mlir.Parser.Steps.Moves.{Gives, gives, weaken, skip_nested-Move}
use json_schema_mlir.Parser.Steps.Separators.{error_at_token-fails}
use json_schema_mlir.Parser.Steps.Values.{skip_error-Move}
use json_schema_mlir.Parser.Sound.{Reads, fails-Reads, parse_array-Reads, parse_object-Reads}

kind-not-eof :
    (t : Token) (k : TokenKind) → t.kind ≡ k → (kind_id k == 11) ≡ false → is eof t ≡ false
unfolding is
kind-not-eof t k e f = rw e f

pub first_IsAtom :
    (ts : List Token) → is_atom (head_token ts).kind ≡ true → IsAtom ts (behind_first ts)
first_IsAtom [] e = absurd (ground arith)
first_IsAtom (t ∷ ts) e = atom e

pub consume-IsAtom :
    (s : State) (k : TokenKind)
    → (tok s).kind ≡ k
    → (kind_id k == 11) ≡ false
    → is_atom k ≡ true
    → IsAtom s.rest (consume s).rest
unfolding consume
consume-IsAtom s k e f a = rw (kind-not-eof (tok s) k e f) (first_IsAtom s.rest (rw e a))

module _ (X : List Token → List Token → Type 0)
    (atoms : (xs ys : List Token) → IsAtom xs ys → X xs ys) where
  consume-Reads :
      (s : State) (k : TokenKind)
      → (tok s).kind ≡ k
      → (kind_id k == 11) ≡ false
      → is_atom k ≡ true
      → Gives {A = Done} s (Reads X s) (some (tt, consume s))
  consume-Reads s k e f a =
      gives (consume-Move s).step (λ h. atoms s.rest (consume s).rest (consume-IsAtom s k e f a))

  no_value :
      (s : State) → Gives {A = Done} s (Reads X s) (some (tt, error_at_token expected_value s))
  no_value s =
      fails-Reads X (error_at_token-Move expected_value s) (error_at_token-fails expected_value s)

  skip_kind-Reads :
      (nested : Parse Done) (k : TokenKind) (s : State)
      → (tok s).kind ≡ k
      → (((tok s).kind ≡ l_brace) ⊎ ((tok s).kind ≡ l_square) → Gives s (Reads X s) (nested s))
      → Gives s (Reads X s) (skip_kind nested k s)
  unfolding skip_kind
  skip_kind-Reads nested string s e n = consume-Reads s string e refl refl
  skip_kind-Reads nested number s e n = consume-Reads s number e refl refl
  skip_kind-Reads nested true_word s e n = consume-Reads s true_word e refl refl
  skip_kind-Reads nested false_word s e n = consume-Reads s false_word e refl refl
  skip_kind-Reads nested null_word s e n = consume-Reads s null_word e refl refl
  skip_kind-Reads nested error s e n =
      fails-Reads X (skip_error-Move s e) ((consume-Move (fail s)).step.fails refl)
  skip_kind-Reads nested l_brace s e n = n (inl e)
  skip_kind-Reads nested l_square s e n = n (inr e)
  skip_kind-Reads nested r_brace s e n = no_value s
  skip_kind-Reads nested r_square s e n = no_value s
  skip_kind-Reads nested comma s e n = no_value s
  skip_kind-Reads nested eof s e n = no_value s
  skip_kind-Reads nested colon s e n =
      fails-Reads X (error_at_token-Move expected_value s thence consume-Move _)
        ((consume-Move _).step.fails (error_at_token-fails expected_value s))

kind_is : (t : Token) (k : TokenKind) → t.kind ≡ k → (kind_id k == kind_id k) ≡ true → is k t ≡ true
unfolding is
kind_is t k e f = rw e f

is-l_square :
    (t : Token)
    → is l_brace t ≡ false
    → (t.kind ≡ l_brace) ⊎ (t.kind ≡ l_square)
    → is l_square t ≡ true
is-l_square t f (inl e) = let g = kind_is t l_brace e refl in absurd (ground arith)
is-l_square t f (inr e) = kind_is t l_square e refl

skip_bracket-Reads :
    {V : List Token → List Token → Type 0} (inner : Parse Done) (s : State)
    → ((t : State) → Gives t (Reads V t) (inner t))
    → ((tok s).kind ≡ l_brace) ⊎ ((tok s).kind ≡ l_square)
    → Gives s
        (λ u t. t.failed ≡ false → IsObject V s.rest t.rest ⊎ IsArray V s.rest t.rest)
        (skip_bracket inner s)
unfolding skip_bracket
skip_bracket-Reads inner s k e = elim (Bool-cases (is l_brace (tok s))) [
  | inl q ↦ rw q (
      weaken (λ u t p h f. inl (h f)) (parse_object-Reads (λ key l. inner) tt s (λ key l t. k t) q))
  | inr q ↦ rw q (
      weaken (λ u t p h f. inr (h f))
        (parse_array-Reads (λ l. inner) tt s (λ l t. k t) (is-l_square (tok s) q e)))
]

pub skip_value-Reads :
    (levels : ℕ) (s : State) → Gives s (Reads (IsValue levels) s) (skip_value levels s)
unfolding skip_value
skip_value-Reads zero s =
    skip_kind-Reads (IsValue zero) (λ xs ys a. a) skip_too_deep (tok s).kind s refl
      (λ n.
        fails-Reads (IsValue zero) (error_at_token-Move too_deep s thence skip_nested-Move _)
          ((skip_nested-Move _).step.fails (error_at_token-fails too_deep s)))
skip_value-Reads (suc levels) s =
    skip_kind-Reads (IsValue (suc levels)) (λ xs ys a. inl a) (skip_bracket (skip_value levels))
      (tok s).kind s refl
      (λ n.
        weaken (λ u t p h f. inr (h f))
          (skip_bracket-Reads (skip_value levels) s (skip_value-Reads levels) n))
