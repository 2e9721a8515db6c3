-- ===== src/Semantics.antt =====
-- What the constraints of the dialect accept, as include/Schema/SchemaOps.td and the README state
-- it.
use json_schema_mlir.Prelude.{
  ℤ, leb_ℤ, Bool, true, false, not, ◌&&◌, ◌||◌, ◌==◌, Option, none, some, Bytes,
}
use json_schema_mlir.Float.{Double, ogt, oge, olt, ole}
use json_schema_mlir.Runtime.{Runtime, number, string, tag}

abbrev pub holds : Option Bool → Bool
holds none = false
holds (some b) = b

abbrev pub min_length_ok : Option ℤ → Option ℤ → Bool
min_length_ok none n = true
min_length_ok (some m) none = false
min_length_ok (some m) (some n) = leb_ℤ m n

abbrev pub max_length_ok : Option ℤ → Option ℤ → Bool
max_length_ok none n = true
max_length_ok (some m) none = false
max_length_ok (some m) (some n) = leb_ℤ n m

-- An absent pattern or format holds of every string.
abbrev pub text_ok : (Bytes → Option Bool) → Option Bytes → Bool
text_ok test none = true
text_ok test (some p) = holds (test p)

module _ {D : Type 0} ⦃d : Double D⦄ where
  abbrev pub minimum_ok : Option D → Bool → D → Bool
  minimum_ok none excl x = true
  minimum_ok (some m) true x = ogt x m
  minimum_ok (some m) false x = oge x m

  abbrev pub maximum_ok : Option D → Bool → D → Bool
  maximum_ok none excl x = true
  maximum_ok (some m) true x = olt x m
  maximum_ok (some m) false x = ole x m

  -- `x / m` must be an exact integer.
  abbrev pub multiple_ok : Option D → D → Bool
  multiple_ok none x = true
  multiple_ok (some m) x = d.eq (d.div x m) (d.round_even (d.div x m))

  abbrev pub integral_ok : Bool → D → Bool
  integral_ok b x = not b || d.eq x (d.trunc x)

  abbrev pub on_number : (D → Bool) → Option D → Bool
  on_number test none = false
  on_number test (some x) = test x

  -- A value that is no number is rejected.
  unfoldable pub accepts_number_by : {H : Type 0} → Runtime H D → (D → Bool) → H → Bool
  accepts_number_by rt test h = rt.kind h == tag number && on_number test (rt.as_f64 h)

-- A value that is no string is rejected.
unfoldable pub accepts_string_by :
    {H D : Type 0}
    → Runtime H D
    → (min_length max_length : Option ℤ) (regex format : Option Bytes) → H
    → Bool
accepts_string_by rt lo hi regex format h =
    rt.kind h == tag string
    && min_length_ok lo (rt.str_len h)
    && max_length_ok hi (rt.str_len h)
    && text_ok (rt.matches h) regex
    && text_ok (rt.has_format h) format
