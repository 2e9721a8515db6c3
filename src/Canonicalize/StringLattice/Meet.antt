-- ===== src/Canonicalize/StringLattice/Meet.antt =====
-- `StringLattice::meet` and `subsumes`, and the strings accepted.
use json_schema_mlir.Prelude.{
  ℤ, Bool, true, false, ◌&&◌, Option, none, some, ◌≡◌, refl, arith, Bytes, bytes_eq→eq, ◌==◌,
}
use json_schema_mlir.Semantics.{min_length_ok, max_length_ok, text_ok}
use json_schema_mlir.Runtime.{Runtime, tag, string}
use json_schema_mlir.Canonicalize.Bounds.{
  tightest_lower, tightest_upper, first_of, conflict, tightest_lower-min_length_ok,
  tightest_upper-max_length_ok, first_of-text_ok,
}
use json_schema_mlir.Canonicalize.StringLattice.{
  StringLattice, string_meet, string_subsumes, accepts_string, weaker_min, weaker_max, other_text,
}

-- A conjunction of two conjunctions under the same guard, regrouped.
interleave :
    (k a a' b b' c c' d d' : Bool)
    → (k && (a && a') && (b && b') && (c && c') && (d && d'))
      ≡ ((k && a && b && c && d) && (k && a' && b' && c' && d'))
interleave false _ _ _ _ _ _ _ _ = refl
interleave true false _ _ _ _ _ _ _ = refl
interleave true true a' b b' c c' d d' = ground arith

-- The meet that `meet` builds, where no texts conflict.
abbrev pub met : StringLattice → StringLattice → StringLattice
met a b = record {
  min_length = tightest_lower a.min_length b.min_length;
  max_length = tightest_upper a.max_length b.max_length;
  regex = first_of a.regex b.regex;
  format = first_of a.format b.format;
}

pub string_meet-eq-some :
    (a b : StringLattice) {c : StringLattice}
    → string_meet a b ≡ some c
    → (conflict a.regex b.regex ≡ false) × (conflict a.format b.format ≡ false) × (c ≡ met a b)
unfolding string_meet
string_meet-eq-some a b e = ground arith

stronger-min_length_ok :
    (a b n : Option ℤ)
    → weaker_min a b ≡ false
    → min_length_ok a n ≡ true
    → min_length_ok b n ≡ true
stronger-min_length_ok a b n e p = ground arith

stronger-max_length_ok :
    (a b n : Option ℤ)
    → weaker_max a b ≡ false
    → max_length_ok a n ≡ true
    → max_length_ok b n ≡ true
stronger-max_length_ok a b n e p = ground arith

same-text_ok :
    (test : Bytes → Option Bool) (a b : Option Bytes)
    → other_text a b ≡ false
    → text_ok test a ≡ true
    → text_ok test b ≡ true
same-text_ok test a none e p = refl
same-text_ok test none (some b) e p = ground arith
same-text_ok test (some a) (some b) e p = ground (arith, bytes_eq→eq a b)

module _ {H D : Type 0} (rt : Runtime H D) where
  -- Whenever two string constraint sets have a meet, it accepts exactly the values that both of
  -- them accept.
  pub accepts_string-meet :
      (a b : StringLattice) {c : StringLattice} (h : H)
      → string_meet a b ≡ some c
      → accepts_string rt c h ≡ (accepts_string rt a h && accepts_string rt b h)
  unfolding accepts_string
  accepts_string-meet a b h e =
      let (same_regex, same_format, is_met) = string_meet-eq-some a b e in
      rw is_met (
        rw
          (
            tightest_lower-min_length_ok a.min_length b.min_length (rt.str_len h),
            tightest_upper-max_length_ok a.max_length b.max_length (rt.str_len h),
            first_of-text_ok (rt.matches h) a.regex b.regex same_regex,
            first_of-text_ok (rt.has_format h) a.format b.format same_format,
          )
          (interleave (rt.kind h == tag string) (min_length_ok a.min_length (rt.str_len h))
            (min_length_ok b.min_length (rt.str_len h)) (max_length_ok a.max_length (rt.str_len h))
            (max_length_ok b.max_length (rt.str_len h)) (text_ok (rt.matches h) a.regex)
            (text_ok (rt.matches h) b.regex) (text_ok (rt.has_format h) a.format)
            (text_ok (rt.has_format h) b.format)))

  -- A subsumption between string constraint sets is one between the sets of accepted values.
  pub accepts_string-subsumes :
      (a b : StringLattice) (h : H)
      → string_subsumes a b ≡ true
      → accepts_string rt a h ≡ true
      → accepts_string rt b h ≡ true
  unfolding string_subsumes accepts_string
  accepts_string-subsumes a b h e p = ground (
    arith,
    stronger-min_length_ok a.min_length b.min_length (rt.str_len h),
    stronger-max_length_ok a.max_length b.max_length (rt.str_len h),
    same-text_ok (rt.matches h) a.regex b.regex,
    same-text_ok (rt.has_format h) a.format b.format,
  )
