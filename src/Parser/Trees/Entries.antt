-- ===== src/Parser/Trees/Entries.antt =====
-- The entries of `type` and `required`.
use json_schema_mlir.Prelude.{
  ℕ, ◌≡◌, ◌∙◌, arith, Bool, false, Bool-cases, inl, inr, Option, none, some, List, [], ◌∷◌, Bytes,
  All,
}
use json_schema_mlir.Lexer.Token.{string, Token}
use json_schema_mlir.Ast.{Located, JsonType}
use json_schema_mlir.Ast.Names.{symbolize_json_type}
use json_schema_mlir.Parser.State.{
  State, tok, is, consume, bad_value, unknown_type, repeated_type, repeated_required,
}
use json_schema_mlir.Parser.Keywords.{
  Types, lists_type, add_known, add_type, bad_element, type_element, Names, lists_name, add_name,
  required_element,
}
use json_schema_mlir.Parser.Steps.{stay, Move, consume-Move, report-Move}
use json_schema_mlir.Parser.Steps.Moves.{Gives, gives, and_then-Gives, after}
use json_schema_mlir.Parser.Steps.Loops.{IsStable}
use json_schema_mlir.Parser.Steps.Values.{bad_value_at-Gives}
use json_schema_mlir.Parser.Shape.{Distinct, Distinct-push, same_type, same_name}

-- The entries of an array, with no duplicates, and no number given out since `s`.
abbrev pub Entries : {A : Type 0} → (A → A → Bool) → State → List A → State → Type 0
Entries same s xs t = Distinct same xs × (t.next_id ≡ s.next_id)

pub Entries-IsStable : {A : Type 0} (same : A → A → Bool) (s : State) → IsStable (Entries same s)
Entries-IsStable same s = record { carry = λ p (d, e). (d, p.same ∙ e) }

-- An entry that an error is about is left out.
keeps_Entries :
    {A : Type 0} {same : A → A → Bool} (s : State) {t u : State} {xs : List A}
    → Move t u
    → Entries same s xs t
    → Gives t (Entries same s) (some (xs, u))
keeps_Entries s p (d, e) = gives p.step (d, p.same ∙ e)

bad_element-Gives :
    {A : Type 0} {same : A → A → Bool} (s : State) (xs : List A) (key : Token) (levels : ℕ)
    (t : State)
    → Entries same s xs t
    → Gives t (Entries same s) (bad_element xs key levels t)
bad_element-Gives s xs key levels t (d, e) =
    and_then-Gives (bad_value_at-Gives (bad_value key.value) levels t)
      (λ o u p (q, f, i). gives stay (d, i ∙ e))

lists_type-All :
    (types : Types) (x : Located JsonType)
    → lists_type types x.value ≡ false
    → All (λ y. same_type y x ≡ false) types
unfolding lists_type
lists_type-All [] x e = tt
lists_type-All (y ∷ types) x e = (ground arith, lists_type-All types x (ground arith))

lists_name-All :
    (names : Names) (x : Located Bytes)
    → lists_name names x.value ≡ false
    → All (λ y. same_name y x ≡ false) names
unfolding lists_name
lists_name-All [] x e = tt
lists_name-All (y ∷ names) x e = (ground arith, lists_name-All names x (ground arith))

add_known-Gives :
    (s : State) (types : Types) (name : Token) (o : Option JsonType) (t : State)
    → Entries same_type s types t
    → Gives t (Entries same_type s) (add_known types name o t)
add_known-Gives s types name none t h =
    keeps_Entries s (report-Move name.range.begin (unknown_type name.value) t) h
add_known-Gives s types name (some type) t (d, i) = elim (Bool-cases (lists_type types type)) [
  | inl e ↦
      rw e (keeps_Entries s (report-Move name.range.begin (repeated_type name.value) t) (d, i))
  | inr e ↦
      let x : Located JsonType = record { value = type; range = name.range } in
      rw e (gives stay (Distinct-push same_type types x d (lists_type-All types x e), i))
]

pub add_type-Gives :
    (s : State) (types : Types) (t : State)
    → Entries same_type s types t
    → Gives t (Entries same_type s) (add_type types t)
unfolding add_type
add_type-Gives s types t (d, e) =
    let p = consume-Move t in
    after p.step (
      add_known-Gives s types (tok t) (symbolize_json_type (tok t).value) (consume t)
        (d, p.same ∙ e))

add_name-Gives :
    (s : State) (names : Names) (name : Token) (t : State)
    → Entries same_name s names t
    → Gives t (Entries same_name s) (add_name names name t)
unfolding add_name
add_name-Gives s names name t (d, i) = elim (Bool-cases (lists_name names name.value)) [
  | inl e ↦
      rw e (keeps_Entries s (report-Move name.range.begin (repeated_required name.value) t) (d, i))
  | inr e ↦
      let x : Located Bytes = record { value = name.value; range = name.range } in
      rw e (gives stay (Distinct-push same_name names x d (lists_name-All names x e), i))
]

pub type_element-Keeps :
    (s : State) (key : Token) (levels : ℕ) (types : Types) (t : State)
    → Entries same_type s types t
    → Gives t (Entries same_type s) (type_element key levels types t)
type_element-Keeps s key levels types t h = elim (Bool-cases (is string (tok t))) [
  | inl e ↦ rw e (add_type-Gives s types t h)
  | inr e ↦ rw e (bad_element-Gives s types key levels t h)
]

pub required_element-Keeps :
    (s : State) (key : Token) (levels : ℕ) (names : Names) (t : State)
    → Entries same_name s names t
    → Gives t (Entries same_name s) (required_element key levels names t)
required_element-Keeps s key levels names t (d, i) = elim (Bool-cases (is string (tok t))) [
  | inl e ↦
      let p = consume-Move t in
      rw e (after p.step (add_name-Gives s names (tok t) (consume t) (d, p.same ∙ i)))
  | inr e ↦ rw e (bad_element-Gives s names key levels t (d, i))
]
