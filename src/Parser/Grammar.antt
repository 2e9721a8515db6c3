-- ===== src/Parser/Grammar.antt =====
-- The grammar of JSON values at the head of the file, over tokens: `IsValue n xs ys` says that a value
-- whose brackets are nested at most `n` deep stands in front of `ys` in `xs`.
use json_schema_mlir.Prelude.{ℕ, zero, suc, ◌≡◌, ◌⊎◌, Bool, true, false, List, ◌∷◌}
use json_schema_mlir.Lexer.Token.{
  TokenKind, l_brace, r_brace, l_square, r_square, colon, comma, string, number, true_word,
  false_word, null_word, Token,
}
use json_schema_mlir.Parser.State.{is}

abbrev pub is_atom : TokenKind → Bool
is_atom string = true
is_atom number = true
is_atom true_word = true
is_atom false_word = true
is_atom null_word = true
is_atom _ = false

-- One token of the kind.
pub data One (kind : TokenKind) : List Token → List Token → Type 0 where
  one : {t : Token} {ys : List Token} → is kind t ≡ true → One kind (t ∷ ys) ys

pub data IsAtom : List Token → List Token → Type 0 where
  atom : {t : Token} {ys : List Token} → is_atom t.kind ≡ true → IsAtom (t ∷ ys) ys

-- Members, with the bracket that closes the object; `Value` reads a value.
pub data AreMembers (Value : List Token → List Token → Type 0)
    : List Token → List Token → Type 0 where
  last_member :
      {ws xs ys zs us : List Token}
      → One string ws xs
      → One colon xs ys
      → Value ys zs
      → One r_brace zs us
      → AreMembers Value ws us
  member_then :
      {ws xs ys zs us vs : List Token}
      → One string ws xs
      → One colon xs ys
      → Value ys zs
      → One comma zs us
      → AreMembers Value us vs
      → AreMembers Value ws vs

pub data AreElements (Value : List Token → List Token → Type 0)
    : List Token → List Token → Type 0 where
  last_element :
      {xs ys zs : List Token} → Value xs ys → One r_square ys zs → AreElements Value xs zs
  element_then :
      {xs ys zs us : List Token}
      → Value xs ys
      → One comma ys zs
      → AreElements Value zs us
      → AreElements Value xs us

pub data IsObject (Value : List Token → List Token → Type 0)
    : List Token → List Token → Type 0 where
  no_members :
      {xs ys zs : List Token} → One l_brace xs ys → One r_brace ys zs → IsObject Value xs zs
  members :
      {xs ys zs : List Token} → One l_brace xs ys → AreMembers Value ys zs → IsObject Value xs zs

pub data IsArray (Value : List Token → List Token → Type 0) : List Token → List Token → Type 0 where
  no_elements :
      {xs ys zs : List Token} → One l_square xs ys → One r_square ys zs → IsArray Value xs zs
  elements :
      {xs ys zs : List Token} → One l_square xs ys → AreElements Value ys zs → IsArray Value xs zs

abbrev pub IsValue : ℕ → List Token → List Token → Type 0
IsValue zero xs ys = IsAtom xs ys
IsValue (suc n) xs ys = IsAtom xs ys ⊎ IsObject (IsValue n) xs ys ⊎ IsArray (IsValue n) xs ys
