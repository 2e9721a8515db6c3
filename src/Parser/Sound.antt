-- ===== src/Parser/Sound.antt =====
-- What objects, arrays and `skipValue` have read when the parse has not failed.
pub mod Values
pub mod Keywords
pub mod Leaves
pub mod Schemas
pub mod Document
use json_schema_mlir.Prelude.{
  ℕ, zero, suc, ◌≤◌, ◌<◌, ◌≡◌, ◌⊎◌, refl, ◌==◌, arith, Bool, true, false, not, ◌||◌, Bool-cases,
  inl, inr, some, List, ◌∷◌, length, if◌then◌else◌,
}
use json_schema_mlir.Lexer.Source.{SourcePos}
use json_schema_mlir.Lexer.Token.{
  TokenKind, l_brace, r_brace, l_square, r_square, colon, comma, string, number, true_word,
  false_word, null_word, eof, error, Token,
}
use json_schema_mlir.Parser.State.{
  State, tok, is, kind_id, consume, fail, error_at_token, expected_value, too_deep, expected_key,
  expected_colon,
}
use json_schema_mlir.Parser.Loops.{
  Parse, and_then, next, go_on, array_loop, parse_array, object_member, object_loop, parse_object,
  skip_nested,
}
use json_schema_mlir.Parser.Values.{Done, skip_kind, skip_too_deep, skip_bracket, skip_value}
use json_schema_mlir.Parser.Grammar.{
  One, one, IsAtom, atom, is_atom, AreMembers, last_member, member_then, AreElements, last_element,
  element_then, IsObject, no_members, members, IsArray, no_elements, elements, IsValue,
}
use json_schema_mlir.Parser.Steps.{
  Step, stay, was_quiet, Move, ◌thence◌, Step-fewer, consume-Move, error_at_token-Move,
  error_unclosed-Move,
}
use json_schema_mlir.Parser.Steps.Moves.{
  Gives, gives, and_then-Gives, after, weaken, skip_nested-Move, skip_to_separator-Move,
}
use json_schema_mlir.Parser.Steps.Separators.{
  parse_separator-Gives, separator_kind, consume-One, error_at_token-fails, error_unclosed-fails,
  closes-not-eof, IsSeparated,
}

-- Between the two states `X` was read, unless the parse has failed.
abbrev pub Reads : {L : Type 0} → (List Token → List Token → Type 0) → State → L → State → Type 0
Reads X s l t = t.failed ≡ false → X s.rest t.rest

pub fails-Reads :
    {L : Type 0} (X : List Token → List Token → Type 0) {l : L} {s t : State}
    → Move s t
    → t.failed ≡ true
    → Gives s (Reads X s) (some (l, t))
fails-Reads X p f = gives p.step (λ h. absurd (ground arith))

still_going : {s t : State} → Step s t → t.failed ≡ false → s.failed ≡ false
still_going {s} {t} p h = was_quiet s.failed t.failed p.fails h

-- A separator that goes on with `X`, or the end.
data Tail (close : TokenKind) (X : List Token → List Token → Type 0)
    : List Token → List Token → Type 0 where
  goes_on : {xs ys zs : List Token} → One comma xs ys → X ys zs → Tail close X xs zs
  ends : {xs ys : List Token} → One close xs ys → Tail close X xs ys

module _ {L : Type 0} {X : List Token → List Token → Type 0} where
  next-Reads :
      (fuel : ℕ) (again : L → Parse L) (close : TokenKind) (at : SourcePos) (l : L) (s : State)
      → length s.rest ≤ fuel
      → (kind_id close == 11) ≡ false
      → ((m : L) (t : State) → length t.rest < fuel → Gives t (Reads X t) (again m t))
      → Gives s (Reads (Tail close X) s) (next again close at l s)
  next-Reads fuel again close at l s n c k =
      and_then-Gives (parse_separator-Gives close at s c) (λ b t p i.
        elim b
            as (λ b.
              IsSeparated close s b t → Gives t (Reads (Tail close X) s) (go_on again l b t)) [
                | true ↦ λ i.
                    let q = i.costs refl in
                    weaken (λ m u z h f. goes_on (i.reads (still_going z f)) (h f))
                      (k l t (omega arith))
                | false ↦ λ i. gives stay (λ f. ends (i.reads f))
              ]
          i)

-- A callback that reads a value.
abbrev pub ReadsEach : {L : Type 0} → (List Token → List Token → Type 0) → (L → Parse L) → Type 0
ReadsEach {L} V f = (l : L) (s : State) → Gives s (Reads V s) (f l s)

module _ {V : List Token → List Token → Type 0} where
  join_element :
      {xs ys zs : List Token} → V xs ys → Tail r_square (AreElements V) ys zs → AreElements V xs zs
  join_element v (goes_on c m) = element_then v c m
  join_element v (ends c) = last_element v c

  join_member :
      {ws xs ys zs us : List Token}
      → One string ws xs
      → One colon xs ys
      → V ys zs
      → Tail r_brace (AreMembers V) zs us
      → AreMembers V ws us
  join_member k c v (goes_on d m) = member_then k c v d m
  join_member k c v (ends d) = last_member k c v d

-- A key, a colon and a value.
data IsMember (V : List Token → List Token → Type 0) : List Token → List Token → Type 0 where
  member :
      {ws xs ys zs : List Token} → One string ws xs → One colon xs ys → V ys zs → IsMember V ws zs

join_one :
    {V : List Token → List Token → Type 0} {xs ys zs : List Token}
    → IsMember V xs ys
    → Tail r_brace (AreMembers V) ys zs
    → AreMembers V xs zs
join_one (member k c v) t = join_member k c v t

module _ {L : Type 0} {V : List Token → List Token → Type 0} where
  array_loop-Reads :
      (fuel : ℕ) (on_element : L → Parse L) (at : SourcePos) (l : L) (s : State)
      → ReadsEach V on_element
      → length s.rest < fuel
      → Gives s (Reads (AreElements V) s) (array_loop fuel on_element at l s)
  unfolding array_loop
  array_loop-Reads zero on_element at l s k n = absurd (omega arith)
  array_loop-Reads (suc fuel) on_element at l s k n = elim (Bool-cases (is eof (tok s))) [
    | inl e ↦ rw e (
        fails-Reads (AreElements V) (error_unclosed-Move r_square at s)
          (error_unclosed-fails r_square at s))
    | inr e ↦ rw e (
        and_then-Gives (k l s) (λ m t p g.
          let c = Step-fewer p in
          weaken (λ l u q h f. join_element (g (still_going q f)) (h f))
            (next-Reads fuel (array_loop fuel on_element at) r_square at m t (omega arith) refl
              (λ m t n. array_loop-Reads fuel on_element at m t k n))))
  ]

  pub parse_array-Reads :
      (on_element : L → Parse L) (l : L) (s : State)
      → ReadsEach V on_element
      → is l_square (tok s) ≡ true
      → Gives s (Reads (IsArray V) s) (parse_array on_element l s)
  unfolding parse_array
  parse_array-Reads on_element l s k b =
      let p = consume-Move s in
      let o = consume-One l_square s (closes-not-eof l_square (tok s) refl b) b in
      let t = consume s in
      elim (Bool-cases (is r_square (tok t))) [
        | inl e ↦ rw e (
            gives (p thence consume-Move t).step (λ f.
              no_elements o (consume-One r_square t (closes-not-eof r_square (tok t) refl e) e)))
        | inr e ↦ rw e (
            after p.step (
              weaken (λ m u q h f. elements o (h f))
                (array_loop-Reads (suc (length t.rest)) on_element (tok s).range.begin l t k
                  (omega arith))))
      ]

  object_member-Reads :
      (on_member : Token → L → Parse L) (l : L) (s : State)
      → ((key : Token) → ReadsEach V (on_member key))
      → Gives s (Reads (IsMember V) s) (object_member on_member l s)
  unfolding object_member
  object_member-Reads on_member l s k =
      let t = consume s in
      elim (Bool-cases (is string (tok s))) [
        | inl e ↦
            let key = consume-One string s (closes-not-eof string (tok s) refl e) e in
            elim (Bool-cases (is colon (tok t))) [
              | inl q ↦
                  let at = consume-One colon t (closes-not-eof colon (tok t) refl q) q in
                  let p = consume-Move s thence consume-Move t in
                  rw (e, q)
                    (after p.step
                      (weaken (λ m u r h f. member key at (h f)) (k (tok s) l (consume t))))
              | inr q ↦
                  rw (e, q)
                    (fails-Reads (IsMember V)
                      (consume-Move s
                        thence error_at_token-Move expected_colon t
                        thence skip_to_separator-Move r_brace _)
                      ((skip_to_separator-Move r_brace _).step.fails
                        (error_at_token-fails expected_colon t)))
            ]
        | inr e ↦ rw e (
            fails-Reads (IsMember V)
              (error_at_token-Move expected_key s thence skip_to_separator-Move r_brace _)
              ((skip_to_separator-Move r_brace _).step.fails (error_at_token-fails expected_key s)))
      ]

  object_loop-Reads :
      (fuel : ℕ) (on_member : Token → L → Parse L) (at : SourcePos) (l : L) (s : State)
      → ((key : Token) → ReadsEach V (on_member key))
      → length s.rest < fuel
      → Gives s (Reads (AreMembers V) s) (object_loop fuel on_member at l s)
  unfolding object_loop
  object_loop-Reads zero on_member at l s k n = absurd (omega arith)
  object_loop-Reads (suc fuel) on_member at l s k n = elim (Bool-cases (is eof (tok s))) [
    | inl e ↦ rw e (
        fails-Reads (AreMembers V) (error_unclosed-Move r_brace at s)
          (error_unclosed-fails r_brace at s))
    | inr e ↦ rw e (
        and_then-Gives (object_member-Reads on_member l s k) (λ m t p g.
          let c = Step-fewer p in
          weaken (λ l u q h f. join_one (g (still_going q f)) (h f))
            (next-Reads fuel (object_loop fuel on_member at) r_brace at m t (omega arith) refl
              (λ m t n. object_loop-Reads fuel on_member at m t k n))))
  ]

  pub parse_object-Reads :
      (on_member : Token → L → Parse L) (l : L) (s : State)
      → ((key : Token) → ReadsEach V (on_member key))
      → is l_brace (tok s) ≡ true
      → Gives s (Reads (IsObject V) s) (parse_object on_member l s)
  unfolding parse_object
  parse_object-Reads on_member l s k b =
      let p = consume-Move s in
      let o = consume-One l_brace s (closes-not-eof l_brace (tok s) refl b) b in
      let t = consume s in
      elim (Bool-cases (is r_brace (tok t))) [
        | inl e ↦ rw e (
            gives (p thence consume-Move t).step
              (λ f. no_members o (consume-One r_brace t (closes-not-eof r_brace (tok t) refl e) e)))
        | inr e ↦ rw e (
            after p.step (
              weaken (λ m u q h f. members o (h f))
                (object_loop-Reads (suc (length t.rest)) on_member (tok s).range.begin l t k
                  (omega arith))))
      ]
