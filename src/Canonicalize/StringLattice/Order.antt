-- ===== src/Canonicalize/StringLattice/Order.antt =====
-- `subsumes` and `meet` of string constraints as an order.
use json_schema_mlir.Prelude.{
  ℤ, true, false, Option, none, some, ◌≡◌, refl, arith, Bytes, bytes_eq_refl, eq→bytes_eq, ◌↔◌, sym,
  ap,
}
use json_schema_mlir.Canonicalize.Bounds.{tightest_lower, tightest_upper, first_of, conflict}
use json_schema_mlir.Canonicalize.StringLattice.Meet.{met, string_meet-eq-some}
use json_schema_mlir.Canonicalize.StringLattice.{
  StringLattice, string_meet, string_subsumes, weaker_min, weaker_max, other_text,
}

-- `a` is as strict as `b` in every one of the four constraints.
pub record Stronger (a b : StringLattice) : Type 0 where
  pub min : weaker_min a.min_length b.min_length ≡ false
  pub max : weaker_max a.max_length b.max_length ≡ false
  pub same_regex : other_text a.regex b.regex ≡ false
  pub same_format : other_text a.format b.format ≡ false

pub subsumes→Stronger : (a b : StringLattice) → string_subsumes a b ≡ true → Stronger a b
unfolding string_subsumes
subsumes→Stronger a b e = ground arith

pub Stronger→subsumes : (a b : StringLattice) → Stronger a b → string_subsumes a b ≡ true
unfolding string_subsumes
Stronger→subsumes a b s = ground arith

other_text_refl : (a : Option Bytes) → other_text a a ≡ false
other_text_refl none = refl
other_text_refl (some a) = ground (arith, bytes_eq_refl a)

tightest_lower_bounds :
    (a b : Option ℤ)
    → (weaker_min (tightest_lower a b) a ≡ false) × (weaker_min (tightest_lower a b) b ≡ false)
unfolding tightest_lower
tightest_lower_bounds a b = ground arith

tightest_lower_least :
    (a b d : Option ℤ)
    → weaker_min d a ≡ false
    → weaker_min d b ≡ false
    → weaker_min d (tightest_lower a b) ≡ false
unfolding tightest_lower
tightest_lower_least a b d p q = ground arith

tightest_upper_bounds :
    (a b : Option ℤ)
    → (weaker_max (tightest_upper a b) a ≡ false) × (weaker_max (tightest_upper a b) b ≡ false)
unfolding tightest_upper
tightest_upper_bounds a b = ground arith

tightest_upper_least :
    (a b d : Option ℤ)
    → weaker_max d a ≡ false
    → weaker_max d b ≡ false
    → weaker_max d (tightest_upper a b) ≡ false
unfolding tightest_upper
tightest_upper_least a b d p q = ground arith

first_of_bounds :
    (a b : Option Bytes)
    → conflict a b ≡ false
    → (other_text (first_of a b) a ≡ false) × (other_text (first_of a b) b ≡ false)
first_of_bounds none b c = (refl, other_text_refl b)
first_of_bounds (some a) none c = (other_text_refl (some a), refl)
first_of_bounds (some a) (some b) c = ground (arith, other_text_refl (some a))

first_of_least :
    (a b d : Option Bytes)
    → other_text d a ≡ false
    → other_text d b ≡ false
    → other_text d (first_of a b) ≡ false
first_of_least none b d p q = q
first_of_least (some a) b d p q = p

-- A meet of string constraints is a lower bound of both for `subsumes`, and every other lower
-- bound subsumes it.
pub string_meet_greatest :
    (a b : StringLattice) {c : StringLattice}
    → string_meet a b ≡ some c
    → (string_subsumes c a ≡ true)
      × (string_subsumes c b ≡ true)
      × ((d : StringLattice)
          → string_subsumes d a ≡ true
          → string_subsumes d b ≡ true
          → string_subsumes d c ≡ true)
string_meet_greatest a b e =
    let (fr, ff, is_met) = string_meet-eq-some a b e in
    let lo = tightest_lower_bounds a.min_length b.min_length in
    let hi = tightest_upper_bounds a.max_length b.max_length in
    let re = first_of_bounds a.regex b.regex fr in
    let fo = first_of_bounds a.format b.format ff in
    rw is_met (
      Stronger→subsumes (met a b) a
          (record { min = lo.0; max = hi.0; same_regex = re.0; same_format = fo.0 }),
      Stronger→subsumes (met a b) b
          (record { min = lo.1; max = hi.1; same_regex = re.1; same_format = fo.1 }),
      λ d p q.
          let s = subsumes→Stronger d a p in
          let t = subsumes→Stronger d b q in
          Stronger→subsumes d (met a b) (record {
            min = tightest_lower_least a.min_length b.min_length d.min_length s.min t.min;
            max = tightest_upper_least a.max_length b.max_length d.max_length s.max t.max;
            same_regex = first_of_least a.regex b.regex d.regex s.same_regex t.same_regex;
            same_format = first_of_least a.format b.format d.format s.same_format t.same_format;
          }),
    )

tightest_lower-absorbs : (a b : Option ℤ) → (weaker_min a b ≡ false) ↔ (tightest_lower a b ≡ a)
unfolding tightest_lower
tightest_lower-absorbs a b = ground arith

tightest_upper-absorbs : (a b : Option ℤ) → (weaker_max a b ≡ false) ↔ (tightest_upper a b ≡ a)
unfolding tightest_upper
tightest_upper-absorbs a b = ground arith

first_of-absorbs :
    (a b : Option Bytes) → (other_text a b ≡ false) ↔ ((conflict a b ≡ false) × (first_of a b ≡ a))
first_of-absorbs none none = ground arith
first_of-absorbs none (some b) = ground arith
first_of-absorbs (some a) none = ground arith
first_of-absorbs (some a) (some b) = ground arith

-- `subsumes` is the order of `meet`: string constraints subsume others exactly when they are their
-- meet with them.
pub string_subsumes-meet_iff :
    (a b : StringLattice) → (string_subsumes a b ≡ true) ↔ (string_meet a b ≡ some a)
string_subsumes-meet_iff a b =
    let min = tightest_lower-absorbs a.min_length b.min_length in
    let max = tightest_upper-absorbs a.max_length b.max_length in
    let re = first_of-absorbs a.regex b.regex in
    let fo = first_of-absorbs a.format b.format in
    (
      λ e.
          let s = subsumes→Stronger a b e in
          let (same_regex, regex_is) = re.0 s.same_regex in
          let (same_format, format_is) = fo.0 s.same_format in
          unfold string_meet in
          rw (same_regex, same_format, min.0 s.min, max.0 s.max, regex_is, format_is) refl,
      λ e.
          let (same_regex, same_format, is) = string_meet-eq-some a b e in
          Stronger→subsumes a b (record {
            min = min.1 (ap (λ l. l.min_length) (sym is));
            max = max.1 (ap (λ l. l.max_length) (sym is));
            same_regex = re.1 (same_regex, ap (λ l. l.regex) (sym is));
            same_format = fo.1 (same_format, ap (λ l. l.format) (sym is));
          }),
    )

-- Two texts that are both there are the same.
abbrev pub Agree : Option Bytes → Option Bytes → Type 0
Agree a b = (s t : Bytes) → a ≡ some s → b ≡ some t → s ≡ t

Agree→conflict : (a b : Option Bytes) → Agree a b → conflict a b ≡ false
Agree→conflict none b h = refl
Agree→conflict (some a) none h = refl
Agree→conflict (some a) (some b) h = rw (eq→bytes_eq a b (h a b refl refl)) refl

-- String constraints with no two different patterns or formats have a meet.
pub string_meet-some :
    (a b : StringLattice)
    → Agree a.regex b.regex
    → Agree a.format b.format
    → (c : StringLattice) × (string_meet a b ≡ some c)
unfolding string_meet
string_meet-some a b r f =
    (met a b, rw (Agree→conflict a.regex b.regex r, Agree→conflict a.format b.format f) refl)
