-- ===== src/Parser/Trees/Seen.antt =====
-- The names of members and the keys seen.
use json_schema_mlir.Prelude.{
  ◌≡◌, refl, sym, Bool, true, false, Option, none, some, List, [], ◌∷◌, ◌++◌, All, All-append,
  Bytes, bytes_eq, if◌then◌else◌,
}
use mathlib.Core.Option.{none-ne-some}
use json_schema_mlir.Lexer.Token.{Token}
use json_schema_mlir.Parser.Values.{Seen, seen_at}
use json_schema_mlir.Parser.Schemas.{mark}
use json_schema_mlir.Parser.Shape.{Distinct, Distinct-push}

-- The names are distinct, and all of them were seen.
pub record AreSeen (seen : Seen) (names : List Bytes) : Type 0 where
  pub distinct : Distinct bytes_eq names
  pub covered : (name : Bytes) → seen_at seen name ≡ none → All (λ n. bytes_eq n name ≡ false) names

pub none_seen : AreSeen [] []
none_seen = record { distinct = tt; covered = λ name e. tt }

if-none :
    {A : Type 0} (b : Bool) (x : A) (o : Option A)
    → (if b then some x else o) ≡ none
    → (b ≡ false) × (o ≡ none)
if-none true x o e = absurd (none-ne-some x (sym e))
if-none false x o e = (refl, e)

seen_at-mark :
    (key : Token) (seen : Seen) (name : Bytes)
    → seen_at (mark key seen) name ≡ none
    → (bytes_eq key.value name ≡ false) × (seen_at seen name ≡ none)
unfolding seen_at
seen_at-mark key seen name e =
    if-none (bytes_eq key.value name) key.range.begin (seen_at seen name) e

pub AreSeen-mark :
    {seen : Seen} {names : List Bytes} (key : Token)
    → AreSeen seen names
    → AreSeen (mark key seen) names
AreSeen-mark {seen} key h = record {
  distinct = h.distinct;
  covered = λ name e. h.covered name ((seen_at-mark key seen name e).1);
}

pub AreSeen-push :
    {seen : Seen} {names : List Bytes} (key : Token)
    → seen_at seen key.value ≡ none
    → AreSeen seen names
    → AreSeen (mark key seen) (names ++ key.value ∷ [])
AreSeen-push {seen} {names} key e h = record {
  distinct = Distinct-push bytes_eq names key.value h.distinct (h.covered key.value e);
  covered = λ name f.
      let (p, q) = seen_at-mark key seen name f in
      All-append (λ n. bytes_eq n name ≡ false) names (key.value ∷ []) (h.covered name q) (p, tt);
}
