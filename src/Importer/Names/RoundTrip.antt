-- ===== src/Importer/Names/RoundTrip.antt =====
-- Reading an escaped reference token back.
use json_schema_mlir.Prelude.{
  ℕ, ◌≡◌, refl, false, ◌==◌, ==→eq, Bool-cases, inl, inr, [], ◌∷◌, Bytes, if◌then◌else◌, Option,
  none, some,
}
use json_schema_mlir.Importer.Names.{escape_byte, escape_pointer_token}

-- Evaluation of a reference token by RFC 6901: `~1` stands for `/` and `~0` for `~`. No other `~` and
-- no `/` may stand in one.
abbrev pub prepend : ℕ → Option Bytes → Option Bytes
prepend c none = none
prepend c (some cs) = some (c ∷ cs)

unfoldable pub unescape : Bytes → Option Bytes
unescape [] = some []
unescape (c ∷ []) = if c == b'~' then none else if c == b'/' then none else some (c ∷ [])
unescape (c ∷ d ∷ cs) =
    let escaped = unescape cs in
    let plain = unescape (d ∷ cs) in
    if c == b'~'
    then (if d == b'0'
        then prepend b'~' escaped
        else if d == b'1'
        then prepend b'/' escaped
        else none)
    else if c == b'/'
    then none
    else prepend c plain

unescape-plain :
    (c : ℕ) (cs : Bytes)
    → (c == b'~') ≡ false
    → (c == b'/') ≡ false
    → unescape (c ∷ cs) ≡ prepend c (unescape cs)
unfolding unescape
unescape-plain c [] p q = rw (p, q) refl
unescape-plain c (d ∷ cs) p q = rw (p, q) refl

-- The name of a property is what its reference token in a JSON Pointer stands for.
pub unescape-escape_pointer_token :
    (name : Bytes) → unescape (escape_pointer_token name) ≡ some name
unfolding escape_pointer_token escape_byte unescape
unescape-escape_pointer_token [] = refl
unescape-escape_pointer_token (c ∷ cs) =
    let rest = unescape-escape_pointer_token cs in
    elim (Bool-cases (c == b'~')) [
      | inl p ↦ let e = ==→eq c b'~' p in rw (p, rest, e) refl
      | inr p ↦ elim (Bool-cases (c == b'/')) [
        | inl q ↦ let e = ==→eq c b'/' q in rw (p, q, rest, e) refl
        | inr q ↦ rw (p, q, unescape-plain c (escape_pointer_token cs) p q, rest) refl
      ]
    ]
