-- ===== src/Parser/Complete.antt =====
-- Objects, arrays and `skipValue` where the tokens spell a value.
pub mod Kinds
pub mod Values
use json_schema_mlir.Prelude.{
  ℕ, zero, suc, ◌≤◌, ◌<◌, ◌≡◌, ◌⊎◌, refl, ◌==◌, arith, Bool, true, false, not, ◌||◌, Bool-cases,
  ==→eq, inl, inr, Option, some, List, [], ◌∷◌, length, if◌then◌else◌,
}
use json_schema_mlir.Lexer.Source.{SourcePos}
use json_schema_mlir.Lexer.Token.{
  TokenKind, l_brace, r_brace, l_square, r_square, colon, comma, string, eof, Token,
}
use json_schema_mlir.Parser.State.{State, head_token, behind_first, tok, is, kind_id, consume}
use json_schema_mlir.Parser.Loops.{
  Parse, and_then, go_on, next, separator_loop, parse_separator, array_loop, parse_array,
  object_member, object_loop, parse_object,
}
use json_schema_mlir.Parser.Grammar.{
  One, one, AreMembers, last_member, member_then, AreElements, last_element, element_then, IsObject,
  no_members, members, IsArray, no_elements, elements,
}

abbrev pub put : State → List Token → SourcePos → State
put s xs e = record s { rest = xs; last_end = e }

-- The parse returns in front of `ys`, and of the state only the place has changed.
pub data Jumps {L : Type 0} (s : State) (ys : List Token) : Option (L × State) → Type 0 where
  jumps : {l : L} {e : SourcePos} → Jumps s ys (some (l, put s ys e))

pub and_then-Jumps :
    {A B : Type 0} {s : State} {ys zs : List Token} {o : Option (A × State)} (f : A → Parse B)
    → Jumps s ys o
    → ((a : A) (e : SourcePos) → Jumps s zs (f a (put s ys e)))
    → Jumps s zs (and_then o f)
and_then-Jumps f (jumps {l} {e}) k = k l e

-- A token of one kind is of no other.
pub kind_apart :
    (t : Token) (j k : TokenKind)
    → is j t ≡ true
    → (kind_id j == kind_id k) ≡ false
    → is k t ≡ false
unfolding is
kind_apart t j k e f = ground (arith, ==→eq (kind_id t.kind) (kind_id j))

consume-put :
    (s : State) (t : Token) (xs : List Token) (e : SourcePos)
    → is eof t ≡ false
    → consume (put s (t ∷ xs) e) ≡ put s xs t.range.end
unfolding consume
consume-put s t xs e q = rw q refl

separator_comma :
    (close : TokenKind) (at : SourcePos) (s : State) (c : Token) (ys : List Token) (e : SourcePos)
    → is comma c ≡ true
    → is close (head_token ys) ≡ false
    → parse_separator close at (put s (c ∷ ys) e) ≡ some (true, put s ys c.range.end)
unfolding parse_separator separator_loop
separator_comma close at s c ys e p q =
    rw (p, consume-put s c ys e (kind_apart c comma eof p refl), q) refl

separator_close :
    (close : TokenKind) (at : SourcePos) (s : State) (c : Token) (ys : List Token) (e : SourcePos)
    → (kind_id close == 11) ≡ false
    → (kind_id close == 5) ≡ false
    → is close c ≡ true
    → parse_separator close at (put s (c ∷ ys) e) ≡ some (false, put s ys c.range.end)
unfolding parse_separator separator_loop
separator_close close at s c ys e n m p =
    rw (kind_apart c close comma p m, p, consume-put s c ys e (kind_apart c close eof p n)) refl

-- A relation whose readings start with a token that opens nothing closed, and use up tokens.
pub record IsReadable (V : List Token → List Token → Type 0) : Type 0 where
  pub no_close : (xs ys : List Token) → V xs ys → is r_square (head_token xs) ≡ false
  pub no_end : (xs ys : List Token) → V xs ys → is eof (head_token xs) ≡ false
  pub shorter : (xs ys : List Token) → V xs ys → length ys ≤ length xs

elements-no_close :
    {V : List Token → List Token → Type 0} (v : IsReadable V) (xs ys : List Token)
    → AreElements V xs ys
    → is r_square (head_token xs) ≡ false
elements-no_close v xs ys (last_element a c) = v.no_close _ _ a
elements-no_close v xs ys (element_then a c r) = v.no_close _ _ a

members-no_close :
    {V : List Token → List Token → Type 0} (xs ys : List Token)
    → AreMembers V xs ys
    → is r_brace (head_token xs) ≡ false
members-no_close xs ys (last_member (one {t} p) c a z) = kind_apart t string r_brace p refl
members-no_close xs ys (member_then (one {t} p) c a z r) = kind_apart t string r_brace p refl

module _ {L : Type 0} {V : List Token → List Token → Type 0} (v : IsReadable V) where
  abbrev pub JumpsEach : (L → Parse L) → Type 0
  JumpsEach f =
      (l : L) (s : State) (xs ys : List Token) (e : SourcePos)
      → V xs ys
      → Jumps s ys (f l (put s xs e))

  array_loop-Jumps :
      (fuel : ℕ) (on_element : L → Parse L) (at : SourcePos) (l : L) (s : State)
      (xs ys : List Token) (e : SourcePos)
      → JumpsEach on_element
      → AreElements V xs ys
      → length xs < fuel
      → Jumps s ys (array_loop fuel on_element at l (put s xs e))
  unfolding array_loop
  array_loop-Jumps zero on_element at l s xs ys e k r n = absurd (omega arith)
  array_loop-Jumps (suc fuel) on_element at l s xs ys e k (last_element a (one {t} q)) n =
      rw (v.no_end _ _ a) (
        and_then-Jumps _ (k l s _ _ e a)
          (λ m f. rw (separator_close r_square at s t ys f refl refl q) jumps))
  array_loop-Jumps (suc fuel) on_element at l s xs ys e k (element_then a (one {t} {ys = zs} q) r)
        n =
      rw (v.no_end _ _ a) (
        and_then-Jumps _ (k l s _ _ e a) (λ m f.
          rw (separator_comma r_square at s t zs f q (elements-no_close v _ _ r)) (
            let h = v.shorter _ _ a in
            array_loop-Jumps fuel on_element at m s zs ys t.range.end k r (omega arith))))

  pub parse_array-Jumps :
      (on_element : L → Parse L) (l : L) (s : State) (xs ys : List Token) (e : SourcePos)
      → JumpsEach on_element
      → IsArray V xs ys
      → Jumps s ys (parse_array on_element l (put s xs e))
  unfolding parse_array
  parse_array-Jumps on_element l s xs ys e k (no_elements (one {t} p) (one {t = u} q)) =
      rw
        (
          consume-put s t (u ∷ ys) e (kind_apart t l_square eof p refl),
          q,
          consume-put s u ys t.range.end (kind_apart u r_square eof q refl),
        )
        jumps
  parse_array-Jumps on_element l s xs ys e k (elements (one {t} {ys = zs} p) r) =
      rw (consume-put s t zs e (kind_apart t l_square eof p refl), elements-no_close v zs ys r)
        (array_loop-Jumps (suc (length zs)) on_element t.range.begin l s zs ys t.range.end k r
          (omega arith))

  object_member-Jumps :
      (on_member : Token → L → Parse L) (l : L) (s : State) (k c : Token) (xs ys : List Token)
      (e : SourcePos)
      → ((key : Token) → JumpsEach (on_member key))
      → is string k ≡ true
      → is colon c ≡ true
      → V xs ys
      → Jumps s ys (object_member on_member l (put s (k ∷ c ∷ xs) e))
  unfolding object_member
  object_member-Jumps on_member l s k c xs ys e j p q a =
      rw
        (
          p,
          consume-put s k (c ∷ xs) e (kind_apart k string eof p refl),
          q,
          consume-put s c xs k.range.end (kind_apart c colon eof q refl),
        )
        (j k l s xs ys c.range.end a)

  object_loop-Jumps :
      (fuel : ℕ) (on_member : Token → L → Parse L) (at : SourcePos) (l : L) (s : State)
      (xs ys : List Token) (e : SourcePos)
      → ((key : Token) → JumpsEach (on_member key))
      → AreMembers V xs ys
      → length xs < fuel
      → Jumps s ys (object_loop fuel on_member at l (put s xs e))
  unfolding object_loop
  object_loop-Jumps zero on_member at l s xs ys e j r n = absurd (omega arith)
  object_loop-Jumps (suc fuel) on_member at l s xs ys e j
        (last_member (one {t = k} p) (one {t = c} q) a (one {t} z)) n =
      rw (kind_apart k string eof p refl) (
        and_then-Jumps _ (object_member-Jumps on_member l s k c _ _ e j p q a)
          (λ m f. rw (separator_close r_brace at s t ys f refl refl z) jumps))
  object_loop-Jumps (suc fuel) on_member at l s xs ys e j
        (member_then (one {t = k} p) (one {t = c} q) a (one {t} {ys = zs} z) r) n =
      rw (kind_apart k string eof p refl) (
        and_then-Jumps _ (object_member-Jumps on_member l s k c _ _ e j p q a) (λ m f.
          rw (separator_comma r_brace at s t zs f z (members-no_close zs ys r)) (
            let h = v.shorter _ _ a in
            object_loop-Jumps fuel on_member at m s zs ys t.range.end j r (omega arith))))

  pub parse_object-Jumps :
      (on_member : Token → L → Parse L) (l : L) (s : State) (xs ys : List Token) (e : SourcePos)
      → ((key : Token) → JumpsEach (on_member key))
      → IsObject V xs ys
      → Jumps s ys (parse_object on_member l (put s xs e))
  unfolding parse_object
  parse_object-Jumps on_member l s xs ys e j (no_members (one {t} p) (one {t = u} q)) =
      rw
        (
          consume-put s t (u ∷ ys) e (kind_apart t l_brace eof p refl),
          q,
          consume-put s u ys t.range.end (kind_apart u r_brace eof q refl),
        )
        jumps
  parse_object-Jumps on_member l s xs ys e j (members (one {t} {ys = zs} p) r) =
      rw (consume-put s t zs e (kind_apart t l_brace eof p refl), members-no_close zs ys r)
        (object_loop-Jumps (suc (length zs)) on_member t.range.begin l s zs ys t.range.end j r
          (omega arith))

-- Values use up tokens.
pub length-AreElements :
    {V : List Token → List Token → Type 0} (v : IsReadable V) (xs ys : List Token)
    → AreElements V xs ys
    → length ys ≤ length xs
length-AreElements v xs ys (last_element a (one {t} q)) = let h = v.shorter _ _ a in omega arith
length-AreElements v xs ys (element_then a (one {t} {ys = zs} q) r) =
    let h = v.shorter _ _ a in let k = length-AreElements v zs ys r in omega arith

pub length-AreMembers :
    {V : List Token → List Token → Type 0} (v : IsReadable V) (xs ys : List Token)
    → AreMembers V xs ys
    → length ys ≤ length xs
length-AreMembers v xs ys (last_member (one p) (one q) a (one z)) =
    let h = v.shorter _ _ a in omega arith
length-AreMembers v xs ys (member_then (one p) (one q) a (one {ys = zs} z) r) =
    let h = v.shorter _ _ a in let k = length-AreMembers v zs ys r in omega arith
