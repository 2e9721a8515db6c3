-- ===== src/Parser/Complete/Values.antt =====
-- The values that `skipValue` skips.
use json_schema_mlir.Prelude.{
  ℕ, zero, suc, ◌≤◌, ◌≡◌, ◌↔◌, refl, ◌==◌, arith, true, false, ◌||◌, inl, inr, Option, some, List,
  ◌∷◌, length,
}
use mathlib.Core.Option.{some-injective}
use mathlib.Core.Path.{subst}
use json_schema_mlir.Lexer.Source.{SourcePos}
use json_schema_mlir.Lexer.Token.{TokenKind, l_brace, l_square, r_square, eof, Token}
use json_schema_mlir.Parser.State.{State, head_token, tok, is, kind_id}
use json_schema_mlir.Parser.Loops.{Parse}
use json_schema_mlir.Parser.Values.{Done, skip_kind, skip_too_deep, skip_bracket, skip_value}
use json_schema_mlir.Parser.Grammar.{
  One, one, IsAtom, atom, is_atom, IsObject, no_members, members, IsArray, no_elements, elements,
  IsValue,
}
use json_schema_mlir.Parser.Complete.{
  put, Jumps, jumps, kind_apart, consume-put, IsReadable, parse_array-Jumps, parse_object-Jumps,
  length-AreElements, length-AreMembers,
}
use json_schema_mlir.Parser.Steps.Moves.{Gives, gives}
use json_schema_mlir.Parser.Sound.{Reads}
use json_schema_mlir.Parser.Sound.Values.{skip_value-Reads}
use json_schema_mlir.Parser.Complete.Kinds.{
  atom-no_square, atom-no_end, skip_kind-atom, skip_kind-bracket,
}

One-apart :
    (j k : TokenKind) {xs ys : List Token}
    → One j xs ys
    → (kind_id j == kind_id k) ≡ false
    → is k (head_token xs) ≡ false
One-apart j k (one {t} p) e = kind_apart t j k p e

value-apart :
    (n : ℕ) (k : TokenKind) (xs ys : List Token)
    → (kind_id l_brace == kind_id k) ≡ false
    → (kind_id l_square == kind_id k) ≡ false
    → ((t : Token) → is_atom t.kind ≡ true → is k t ≡ false)
    → IsValue n xs ys
    → is k (head_token xs) ≡ false
value-apart zero k xs ys p q h (atom {t} e) = h t e
value-apart (suc n) k xs ys p q h (inl (atom {t} e)) = h t e
value-apart (suc n) k xs ys p q h (inr (inl (no_members o c))) = One-apart l_brace k o p
value-apart (suc n) k xs ys p q h (inr (inl (members o r))) = One-apart l_brace k o p
value-apart (suc n) k xs ys p q h (inr (inr (no_elements o c))) = One-apart l_square k o q
value-apart (suc n) k xs ys p q h (inr (inr (elements o r))) = One-apart l_square k o q

length-IsObject :
    {V : List Token → List Token → Type 0} (v : IsReadable V) (xs ys : List Token)
    → IsObject V xs ys
    → length ys ≤ length xs
length-IsObject v xs ys (no_members (one p) (one q)) = omega arith
length-IsObject v xs ys (members (one {ys = zs} p) r) =
    let h = length-AreMembers v zs ys r in omega arith

length-IsArray :
    {V : List Token → List Token → Type 0} (v : IsReadable V) (xs ys : List Token)
    → IsArray V xs ys
    → length ys ≤ length xs
length-IsArray v xs ys (no_elements (one p) (one q)) = omega arith
length-IsArray v xs ys (elements (one {ys = zs} p) r) =
    let h = length-AreElements v zs ys r in omega arith

readable :
    (n : ℕ)
    → ((xs ys : List Token) → IsValue n xs ys → length ys ≤ length xs)
    → IsReadable (IsValue n)
readable n h = record {
  no_close = λ xs ys a. value-apart n r_square xs ys refl refl atom-no_square a;
  no_end = λ xs ys a. value-apart n eof xs ys refl refl atom-no_end a;
  shorter = h;
}

length-IsValue : (n : ℕ) (xs ys : List Token) → IsValue n xs ys → length ys ≤ length xs
length-IsValue zero xs ys (atom e) = omega arith
length-IsValue (suc n) xs ys (inl (atom e)) = omega arith
length-IsValue (suc n) xs ys (inr (inl o)) = length-IsObject (readable n (length-IsValue n)) xs ys o
length-IsValue (suc n) xs ys (inr (inr a)) = length-IsArray (readable n (length-IsValue n)) xs ys a

IsValue-IsReadable : (n : ℕ) → IsReadable (IsValue n)
IsValue-IsReadable n = readable n (length-IsValue n)

skip_atom-Jumps :
    (nested : Parse Done) (s : State) (xs ys : List Token) (e : SourcePos)
    → IsAtom xs ys
    → Jumps s ys (skip_kind nested (tok (put s xs e)).kind (put s xs e))
skip_atom-Jumps nested s xs ys e (atom {t} a) =
    rw (skip_kind-atom nested t.kind (put s (t ∷ ys) e) a, consume-put s t ys e (atom-no_end t a))
      jumps

first_of_object :
    {V : List Token → List Token → Type 0} (xs ys : List Token)
    → IsObject V xs ys
    → is l_brace (head_token xs) ≡ true
first_of_object xs ys (no_members (one p) c) = p
first_of_object xs ys (members (one p) r) = p

first_of_array :
    {V : List Token → List Token → Type 0} (xs ys : List Token)
    → IsArray V xs ys
    → is l_square (head_token xs) ≡ true
first_of_array xs ys (no_elements (one p) c) = p
first_of_array xs ys (elements (one p) r) = p

bracket-kind :
    (t : Token)
    → (is l_brace t || is l_square t) ≡ true
    → (kind_id t.kind == 0 || kind_id t.kind == 2) ≡ true
unfolding is
bracket-kind t e = e

skip_value-Jumps :
    (n : ℕ) (s : State) (xs ys : List Token) (e : SourcePos)
    → IsValue n xs ys
    → Jumps s ys (skip_value n (put s xs e))
unfolding skip_value skip_bracket
skip_value-Jumps zero s xs ys e a = skip_atom-Jumps skip_too_deep s xs ys e a
skip_value-Jumps (suc n) s xs ys e (inl a) =
    skip_atom-Jumps (skip_bracket (skip_value n)) s xs ys e a
skip_value-Jumps (suc n) s xs ys e (inr (inl o)) =
    let p = first_of_object xs ys o in
    rw
      (
        skip_kind-bracket (skip_bracket (skip_value n)) (head_token xs).kind (put s xs e)
            (bracket-kind (head_token xs) (ground arith)),
        p,
      )
      (parse_object-Jumps (IsValue-IsReadable n) (λ key l. skip_value n) tt s xs ys e
        (λ key l t us vs f a. skip_value-Jumps n t us vs f a) o)
skip_value-Jumps (suc n) s xs ys e (inr (inr a)) =
    let p = first_of_array xs ys a in
    rw
      (
        skip_kind-bracket (skip_bracket (skip_value n)) (head_token xs).kind (put s xs e)
            (bracket-kind (head_token xs) (ground arith)),
        kind_apart (head_token xs) l_square l_brace p refl,
      )
      (parse_array-Jumps (IsValue-IsReadable n) (λ l. skip_value n) tt s xs ys e
        (λ l t us vs f a. skip_value-Jumps n t us vs f a) a)

-- What a skipped value is, from the state behind it.
pub record IsSkipped (n : ℕ) (s : State) (ys : List Token) : Type 0 where
  pub end : State
  pub runs : skip_value n s ≡ some (tt, end)
  pub unfailed : end.failed ≡ false
  pub stops : end.rest ≡ ys

Reads-some :
    (n : ℕ) (s t : State) (o : Option (Done × State))
    → Gives s (Reads (IsValue n) s) o
    → o ≡ some (tt, t)
    → t.failed ≡ false
    → IsValue n s.rest t.rest
Reads-some n s t o (gives {a} {t = u} p h) e =
    subst (λ (x : Done × State). x.1.failed ≡ false → IsValue n s.rest x.1.rest)
      (some-injective (a, u) (tt, t) e) h

Jumps-IsSkipped :
    (n : ℕ) (s : State) (ys : List Token) (o : Option (Done × State))
    → skip_value n s ≡ o
    → Jumps s ys o
    → s.failed ≡ false
    → IsSkipped n s ys
Jumps-IsSkipped n s ys o e (jumps {l} {e = f}) h = record {
  end = put s ys f;
  runs = e;
  unfailed = h;
  stops = refl;
}

-- Where the parse has not failed before, `skipValue` with `n` levels left returns without a failure
-- in front of the tokens `ys` exactly when a JSON value with brackets nested at most `n` deep stands
-- in front of them.
pub skip_value_lem :
    (n : ℕ) (s : State) (ys : List Token)
    → s.failed ≡ false
    → IsSkipped n s ys ↔ IsValue n s.rest ys
skip_value_lem n s ys h = (
  λ k.
      subst (IsValue n s.rest) k.stops
        (Reads-some n s k.end (skip_value n s) (skip_value-Reads n s) k.runs k.unfailed),
  λ v. Jumps-IsSkipped n s ys (skip_value n s) refl (skip_value-Jumps n s s.rest ys s.last_end v) h,
)
