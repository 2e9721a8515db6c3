-- ===== src/Parser/Sound/Keywords.antt =====
-- The pieces of keywords, and the depth of brackets: below a schema those of schemas count, and those
-- of `properties` and `allOf`.
use json_schema_mlir.Prelude.{
  ℕ, zero, suc, ◌≤◌, ◌≡◌, refl, ◌==◌, arith, true, false, ◌||◌, Bool-cases, inl, inr, Option, none,
  some, List,
}
use mathlib.Core.Path.{subst}
use json_schema_mlir.Lexer.Source.{SourcePos}
use json_schema_mlir.Lexer.Token.{
  TokenKind, l_brace, r_brace, l_square, r_square, colon, comma, string, number, true_word,
  false_word, null_word, eof, error, Token,
}
use json_schema_mlir.Ast.{JsonType}
use json_schema_mlir.Ast.Names.{symbolize_json_type}
use json_schema_mlir.Parser.State.{
  ParseMessage, State, behind_first, tok, is, kind_id, consume, report, bad_value, unknown_type,
  repeated_type, repeated_required,
}
use json_schema_mlir.Parser.Values.{skip_value, bad_value_at}
use json_schema_mlir.Parser.Keywords.{
  Types, lists_type, add_known, add_type, bad_element, type_element, Names, lists_name, add_name,
  required_element,
}
use json_schema_mlir.Parser.Grammar.{
  IsAtom, is_atom, AreMembers, last_member, member_then, AreElements, last_element, element_then,
  no_members, members, no_elements, elements, IsValue,
}
use json_schema_mlir.Parser.Steps.{Step, stay, was_quiet, consume-Move, report-Move}
use json_schema_mlir.Parser.Steps.Moves.{Gives, gives, and_then-Gives, after, weaken}
use json_schema_mlir.Parser.Steps.Separators.{report-fails}
use json_schema_mlir.Parser.Steps.Values.{bad_value_at-Gives}
use json_schema_mlir.Parser.Sound.{Reads, fails-Reads, ReadsEach}
use json_schema_mlir.Parser.Sound.Values.{first_IsAtom, skip_value-Reads}

abbrev pub depth_of : ℕ → ℕ
depth_of zero = zero
depth_of (suc levels) = suc (suc (depth_of levels))

members-map :
    {V W : List Token → List Token → Type 0}
    → ((xs ys : List Token) → V xs ys → W xs ys)
    → (xs ys : List Token) → AreMembers V xs ys
    → AreMembers W xs ys
members-map f xs ys (last_member k c a z) = last_member k c (f _ _ a) z
members-map f xs ys (member_then k c a z r) = member_then k c (f _ _ a) z (members-map f _ _ r)

elements-map :
    {V W : List Token → List Token → Type 0}
    → ((xs ys : List Token) → V xs ys → W xs ys)
    → (xs ys : List Token) → AreElements V xs ys
    → AreElements W xs ys
elements-map f xs ys (last_element a c) = last_element (f _ _ a) c
elements-map f xs ys (element_then a c r) = element_then (f _ _ a) c (elements-map f _ _ r)

atom-IsValue : (n : ℕ) (xs ys : List Token) → IsAtom xs ys → IsValue n xs ys
atom-IsValue zero xs ys a = a
atom-IsValue (suc n) xs ys a = inl a

-- A value is one with more nesting allowed.
pub IsValue-deeper : (n m : ℕ) (xs ys : List Token) → n ≤ m → IsValue n xs ys → IsValue m xs ys
IsValue-deeper zero m xs ys h a = atom-IsValue m xs ys a
IsValue-deeper (suc n) zero xs ys h a = absurd (omega arith)
IsValue-deeper (suc n) (suc m) xs ys h (inl a) = inl a
IsValue-deeper (suc n) (suc m) xs ys h (inr (inl (no_members o c))) = inr (inl (no_members o c))
IsValue-deeper (suc n) (suc m) xs ys h (inr (inl (members o r))) =
    inr (inl (members o (members-map (λ us vs a. IsValue-deeper n m us vs (omega arith) a) _ _ r)))
IsValue-deeper (suc n) (suc m) xs ys h (inr (inr (no_elements o c))) = inr (inr (no_elements o c))
IsValue-deeper (suc n) (suc m) xs ys h (inr (inr (elements o r))) =
    inr
      (inr (elements o (elements-map (λ us vs a. IsValue-deeper n m us vs (omega arith) a) _ _ r)))

depth_of_le : (l : ℕ) → l ≤ depth_of l
depth_of_le zero = omega arith
depth_of_le (suc l) = let h = depth_of_le l in omega arith

id-is_atom : (k : TokenKind) → (kind_id k == 6 || kind_id k == 7) ≡ true → is_atom k ≡ true
id-is_atom l_brace e = absurd (ground arith)
id-is_atom r_brace e = absurd (ground arith)
id-is_atom l_square e = absurd (ground arith)
id-is_atom r_square e = absurd (ground arith)
id-is_atom colon e = absurd (ground arith)
id-is_atom comma e = absurd (ground arith)
id-is_atom string e = refl
id-is_atom number e = refl
id-is_atom true_word e = refl
id-is_atom false_word e = refl
id-is_atom null_word e = refl
id-is_atom eof e = absurd (ground arith)
id-is_atom error e = absurd (ground arith)

is-is_atom : (t : Token) → (is string t || is number t) ≡ true → is_atom t.kind ≡ true
unfolding is
is-is_atom t e = id-is_atom t.kind e

is-eof_false : (t : Token) → (is string t || is number t) ≡ true → is eof t ≡ false
unfolding is
is-eof_false t e = ground arith

consume-rest : (s : State) → is eof (tok s) ≡ false → (consume s).rest ≡ behind_first s.rest
unfolding consume
consume-rest s e = rw e refl

-- A string or a number is a value.
pub scalar-IsValue :
    (n : ℕ) (s : State)
    → (is string (tok s) || is number (tok s)) ≡ true
    → IsValue n s.rest (consume s).rest
scalar-IsValue n s e =
    rw (consume-rest s (is-eof_false (tok s) e))
      (atom-IsValue n s.rest (behind_first s.rest) (first_IsAtom s.rest (is-is_atom (tok s) e)))

-- The value of a keyword of a schema that has `suc l` levels left.
abbrev pub IsKeywordValue : ℕ → List Token → List Token → Type 0
IsKeywordValue l xs ys = IsValue (suc (depth_of l)) xs ys

pub skip_keyword-Reads :
    (l : ℕ) (s : State) → Gives s (Reads (IsKeywordValue l) s) (skip_value (suc l) s)
skip_keyword-Reads l s =
    let h = depth_of_le l in
    weaken
      (λ u t p g f. IsValue-deeper (suc l) (suc (depth_of l)) s.rest t.rest (omega arith) (g f))
      (skip_value-Reads (suc l) s)

pub bad_value_at-Reads :
    {A : Type 0} (X : List Token → List Token → Type 0) (m : ParseMessage) (levels : ℕ) (s : State)
    → Gives s (Reads {L = Option A} X s) (bad_value_at m levels s)
bad_value_at-Reads X m levels s =
    weaken (λ o t p (e, g, i) f. absurd (ground arith)) (bad_value_at-Gives m levels s)

string-Reads :
    {L : Type 0} (n : ℕ) (l : L) (s : State)
    → is string (tok s) ≡ true
    → Gives s (Reads (IsValue n) s) (some (l, consume s))
string-Reads n l s e = gives (consume-Move s).step (λ f. scalar-IsValue n s (ground arith))

-- Nothing more is read.
abbrev pub Unmoved : List Token → List Token → Type 0
Unmoved xs ys = xs ≡ ys

pub report-Reads :
    {L : Type 0} (l : L) (at : SourcePos) (m : ParseMessage) (s : State)
    → Gives s (Reads Unmoved s) (some (l, report at m s))
report-Reads l at m s = fails-Reads Unmoved (report-Move at m s) (report-fails at m s)

pub then-Reads :
    {L : Type 0} (X : List Token → List Token → Type 0) {s t : State} {o : Option (L × State)}
    → Step s t
    → (t.failed ≡ false → X s.rest t.rest)
    → Gives t (Reads Unmoved t) o
    → Gives s (Reads X s) o
then-Reads X {s} {t} p x g =
    after p
      (weaken (λ l u q h f. subst (X s.rest) (h f) (x (was_quiet t.failed u.failed q.fails f))) g)

pub add_known-Reads :
    (types : Types) (name : Token) (o : Option JsonType) (s : State)
    → Gives s (Reads Unmoved s) (add_known types name o s)
add_known-Reads types name none s = report-Reads types name.range.begin (unknown_type name.value) s
add_known-Reads types name (some type) s = elim (Bool-cases (lists_type types type)) [
  | inl e ↦ rw e (report-Reads types name.range.begin (repeated_type name.value) s)
  | inr e ↦ rw e (gives stay (λ f. refl))
]

add_name-Reads :
    (names : Names) (name : Token) (s : State) → Gives s (Reads Unmoved s) (add_name names name s)
unfolding add_name
add_name-Reads names name s = elim (Bool-cases (lists_name names name.value)) [
  | inl e ↦ rw e (report-Reads names name.range.begin (repeated_required name.value) s)
  | inr e ↦ rw e (gives stay (λ f. refl))
]

-- A string that an entry is made of.
pub string_then :
    {L : Type 0} (n : ℕ) (s : State) {o : Option (L × State)}
    → is string (tok s) ≡ true
    → Gives (consume s) (Reads Unmoved (consume s)) o
    → Gives s (Reads (IsValue n) s) o
string_then n s e g =
    then-Reads (IsValue n) (consume-Move s).step (λ f. scalar-IsValue n s (ground arith)) g

bad_element-Reads :
    {L : Type 0} (X : List Token → List Token → Type 0) (l : L) (key : Token) (levels : ℕ)
    (s : State)
    → Gives s (Reads X s) (bad_element l key levels s)
bad_element-Reads X l key levels s =
    and_then-Gives (bad_value_at-Gives (bad_value key.value) levels s)
      (λ o t p (e, g, i). gives stay (λ f. absurd (ground arith)))

pub type_element-Reads :
    (n : ℕ) (key : Token) (levels : ℕ) → ReadsEach (IsValue n) (type_element key levels)
unfolding add_type
type_element-Reads n key levels types s = elim (Bool-cases (is string (tok s))) [
  | inl e ↦ rw e (
      string_then n s e
        (add_known-Reads types (tok s) (symbolize_json_type (tok s).value) (consume s)))
  | inr e ↦ rw e (bad_element-Reads (IsValue n) types key levels s)
]

pub required_element-Reads :
    (n : ℕ) (key : Token) (levels : ℕ) → ReadsEach (IsValue n) (required_element key levels)
required_element-Reads n key levels names s = elim (Bool-cases (is string (tok s))) [
  | inl e ↦ rw e (string_then n s e (add_name-Reads names (tok s) (consume s)))
  | inr e ↦ rw e (bad_element-Reads (IsValue n) names key levels s)
]
