-- ===== src/Ast/Names.antt =====
-- The names of the JSON types: `stringifyJsonType` and `symbolizeJsonType`.
use json_schema_mlir.Prelude.{
  ◌≡◌, refl, ◌↔◌, Bool, true, false, Option, none, some, [], ◌∷◌, Bytes, bytes_eq, bytes_eq→eq,
  if◌then◌else◌,
}
use mathlib.Core.Option.{none-ne-some, some-injective}
use json_schema_mlir.Ast.{
  JsonType, null_type, boolean_type, object_type, array_type, number_type, string_type,
  integer_type,
}

unfoldable pub stringify_json_type : JsonType → Bytes
stringify_json_type null_type = b'n' ∷ b'u' ∷ b'l' ∷ b'l' ∷ []
stringify_json_type boolean_type = b'b' ∷ b'o' ∷ b'o' ∷ b'l' ∷ b'e' ∷ b'a' ∷ b'n' ∷ []
stringify_json_type object_type = b'o' ∷ b'b' ∷ b'j' ∷ b'e' ∷ b'c' ∷ b't' ∷ []
stringify_json_type array_type = b'a' ∷ b'r' ∷ b'r' ∷ b'a' ∷ b'y' ∷ []
stringify_json_type number_type = b'n' ∷ b'u' ∷ b'm' ∷ b'b' ∷ b'e' ∷ b'r' ∷ []
stringify_json_type string_type = b's' ∷ b't' ∷ b'r' ∷ b'i' ∷ b'n' ∷ b'g' ∷ []
stringify_json_type integer_type = b'i' ∷ b'n' ∷ b't' ∷ b'e' ∷ b'g' ∷ b'e' ∷ b'r' ∷ []

-- The cases of the `StringSwitch`, in its order.
unfoldable pub symbolize_json_type : Bytes → Option JsonType
symbolize_json_type name =
    if bytes_eq name (b'n' ∷ b'u' ∷ b'l' ∷ b'l' ∷ [])
    then some null_type
    else if bytes_eq name (b'b' ∷ b'o' ∷ b'o' ∷ b'l' ∷ b'e' ∷ b'a' ∷ b'n' ∷ [])
    then some boolean_type
    else if bytes_eq name (b'o' ∷ b'b' ∷ b'j' ∷ b'e' ∷ b'c' ∷ b't' ∷ [])
    then some object_type
    else if bytes_eq name (b'a' ∷ b'r' ∷ b'r' ∷ b'a' ∷ b'y' ∷ [])
    then some array_type
    else if bytes_eq name (b'n' ∷ b'u' ∷ b'm' ∷ b'b' ∷ b'e' ∷ b'r' ∷ [])
    then some number_type
    else if bytes_eq name (b's' ∷ b't' ∷ b'r' ∷ b'i' ∷ b'n' ∷ b'g' ∷ [])
    then some string_type
    else if bytes_eq name (b'i' ∷ b'n' ∷ b't' ∷ b'e' ∷ b'g' ∷ b'e' ∷ b'r' ∷ [])
    then some integer_type
    else none

symbolize-stringify : (t : JsonType) → symbolize_json_type (stringify_json_type t) ≡ some t
unfolding symbolize_json_type stringify_json_type bytes_eq
symbolize-stringify null_type = refl
symbolize-stringify boolean_type = refl
symbolize-stringify object_type = refl
symbolize-stringify array_type = refl
symbolize-stringify number_type = refl
symbolize-stringify string_type = refl
symbolize-stringify integer_type = refl

if-name :
    (b : Bool) (name : Bytes) (u t : JsonType) (o : Option JsonType)
    → (b ≡ true → name ≡ stringify_json_type u)
    → (o ≡ some t → name ≡ stringify_json_type t)
    → (if b then some u else o) ≡ some t
    → name ≡ stringify_json_type t
if-name true name u t o p q e = rw (← some-injective _ _ e) (p refl)
if-name false name u t o p q e = q e

symbolize-eq-some :
    (name : Bytes) (t : JsonType) → symbolize_json_type name ≡ some t → name ≡ stringify_json_type t
unfolding symbolize_json_type stringify_json_type
symbolize-eq-some name t = if-name _ name null_type t _ (bytes_eq→eq name _) (
    if-name _ name boolean_type t _ (bytes_eq→eq name _) (
      if-name _ name object_type t _ (bytes_eq→eq name _) (
        if-name _ name array_type t _ (bytes_eq→eq name _) (
          if-name _ name number_type t _ (bytes_eq→eq name _) (
            if-name _ name string_type t _ (bytes_eq→eq name _) (
              if-name _ name integer_type t _ (bytes_eq→eq name _)
                (λ e. absurd (none-ne-some t e))))))))

-- A text names a JSON type exactly when it is how that type is printed.
pub symbolize_json_type_lem :
    (name : Bytes) (t : JsonType)
    → (symbolize_json_type name ≡ some t) ↔ (name ≡ stringify_json_type t)
symbolize_json_type_lem name t = (symbolize-eq-some name t, λ e. rw e (symbolize-stringify t))
