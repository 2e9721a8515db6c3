-- ===== src/Parser/Steps/Loops.antt =====
-- The loops of objects and arrays, and what their callbacks keep.
use json_schema_mlir.Prelude.{
  ◌==◌, refl, ℕ, zero, suc, ◌≤◌, ◌<◌, ◌≡◌, arith, false, Bool-cases, inl, inr, some, length,
}
use json_schema_mlir.Lexer.Source.{SourcePos}
use json_schema_mlir.Lexer.Token.{TokenKind, eof, string, colon, r_brace, r_square, Token}
use json_schema_mlir.Parser.State.{kind_id, State, tok, is, consume, expected_key, expected_colon}
use json_schema_mlir.Parser.Loops.{
  Parse, next, object_member, object_loop, parse_object, array_loop, parse_array,
}
use json_schema_mlir.Parser.Steps.{
  stay, Move, ◌thence◌, Step-fewer, consume-Move, error_at_token-Move, error_unclosed-Move,
}
use json_schema_mlir.Parser.Steps.Moves.{
  Gives, gives, and_then-Gives, after, skip_to_separator-Move,
}
use json_schema_mlir.Parser.Steps.Separators.{parse_separator-Gives}

-- What a loop over members or elements keeps of its variables stays true as the parser goes on.
pub record IsStable {L : Type 0} (P : L → State → Type 0) : Type 0 where
  pub carry : {l : L} {s t : State} → Move s t → P l s → P l t

module _ {L : Type 0} {P : L → State → Type 0} (stable : IsStable P) where
  goes_on : {l : L} {s t : State} → Move s t → P l s → Gives s P (some (l, t))
  goes_on p h = gives p.step (stable.carry p h)

  next-Gives :
      (fuel : ℕ) (again : L → Parse L) (close : TokenKind) (at : SourcePos) (l : L) (s : State)
      → P l s
      → length s.rest ≤ fuel
      → (kind_id close == 11) ≡ false
      → ((m : L) (t : State) → P m t → length t.rest < fuel → Gives t P (again m t))
      → Gives s P (next again close at l s)
  next-Gives fuel again close at l s h n c k =
      and_then-Gives (parse_separator-Gives close at s c) (λ b t p i.
        let m : Move s t = record { step = p; same = i.same } in
        elim (Bool-cases b) [
          | inl e ↦ let q = i.costs e in rw e (k l t (stable.carry m h) (omega arith))
          | inr e ↦ rw e (gives stay (stable.carry m h))
        ])

  -- A callback that is called at the value of a member or at an element.
  abbrev pub Keeps : (L → Parse L) → Type 0
  Keeps f = (l : L) (s : State) → P l s → Gives s P (f l s)

  array_loop-Gives :
      (fuel : ℕ) (on_element : L → Parse L) (at : SourcePos) (l : L) (s : State)
      → Keeps on_element
      → P l s
      → length s.rest < fuel
      → Gives s P (array_loop fuel on_element at l s)
  unfolding array_loop
  array_loop-Gives zero on_element at l s k h n = absurd (omega arith)
  array_loop-Gives (suc fuel) on_element at l s k h n = elim (Bool-cases (is eof (tok s))) [
    | inl e ↦ rw e (goes_on (error_unclosed-Move r_square at s) h)
    | inr e ↦ rw e (
        and_then-Gives (k l s h) (λ m t p g.
          let c = Step-fewer p in
          next-Gives fuel (array_loop fuel on_element at) r_square at m t g (omega arith) refl
            (λ m t g n. array_loop-Gives fuel on_element at m t k g n)))
  ]

  pub parse_array-Gives :
      (on_element : L → Parse L) (l : L) (s : State)
      → Keeps on_element
      → P l s
      → Gives s P (parse_array on_element l s)
  unfolding parse_array
  parse_array-Gives on_element l s k h =
      let p = consume-Move s in
      elim (Bool-cases (is r_square (tok (consume s)))) [
        | inl e ↦ let q = p thence consume-Move (consume s) in rw e (goes_on q h)
        | inr e ↦ rw e (
            after p.step (
              array_loop-Gives (suc (length (consume s).rest)) on_element (tok s).range.begin l
                (consume s) k (stable.carry p h) (omega arith)))
      ]

  object_member-Gives :
      (on_member : Token → L → Parse L)
      → ((key : Token) → Keeps (on_member key))
      → Keeps (object_member on_member)
  unfolding object_member
  object_member-Gives on_member k l s h = elim (Bool-cases (is string (tok s))) [
    | inl e ↦ elim (Bool-cases (is colon (tok (consume s)))) [
      | inl q ↦
          let p = consume-Move s thence consume-Move (consume s) in
          rw (e, q) (after p.step (k (tok s) l (consume (consume s)) (stable.carry p h)))
      | inr q ↦
          let p =
            consume-Move s
            thence error_at_token-Move expected_colon (consume s)
            thence skip_to_separator-Move r_brace _ in
          rw (e, q) (goes_on p h)
    ]
    | inr e ↦
        let p = error_at_token-Move expected_key s thence skip_to_separator-Move r_brace _ in
        rw e (goes_on p h)
  ]

  object_loop-Gives :
      (fuel : ℕ) (on_member : Token → L → Parse L) (at : SourcePos) (l : L) (s : State)
      → ((key : Token) → Keeps (on_member key))
      → P l s
      → length s.rest < fuel
      → Gives s P (object_loop fuel on_member at l s)
  unfolding object_loop
  object_loop-Gives zero on_member at l s k h n = absurd (omega arith)
  object_loop-Gives (suc fuel) on_member at l s k h n = elim (Bool-cases (is eof (tok s))) [
    | inl e ↦ rw e (goes_on (error_unclosed-Move r_brace at s) h)
    | inr e ↦ rw e (
        and_then-Gives (object_member-Gives on_member k l s h) (λ m t p g.
          let c = Step-fewer p in
          next-Gives fuel (object_loop fuel on_member at) r_brace at m t g (omega arith) refl
            (λ m t g n. object_loop-Gives fuel on_member at m t k g n)))
  ]

  pub parse_object-Gives :
      (on_member : Token → L → Parse L) (l : L) (s : State)
      → ((key : Token) → Keeps (on_member key))
      → P l s
      → Gives s P (parse_object on_member l s)
  unfolding parse_object
  parse_object-Gives on_member l s k h =
      let p = consume-Move s in
      elim (Bool-cases (is r_brace (tok (consume s)))) [
        | inl e ↦ let q = p thence consume-Move (consume s) in rw e (goes_on q h)
        | inr e ↦ rw e (
            after p.step (
              object_loop-Gives (suc (length (consume s).rest)) on_member (tok s).range.begin l
                (consume s) k (stable.carry p h) (omega arith)))
      ]
