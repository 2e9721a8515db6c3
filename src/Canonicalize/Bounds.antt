-- ===== src/Canonicalize/Bounds.antt =====
-- `tightestLower`, `tightestUpper`, and comparisons of optional values.
use json_schema_mlir.Prelude.{
  ℤ, ltb_ℤ, Bool, true, false, not, ◌&&◌, Option, none, some, Bytes, bytes_eq, bytes_eq→eq, ◌≡◌,
  refl, arith, if◌then◌else◌,
}
use json_schema_mlir.Semantics.{min_length_ok, max_length_ok, text_ok}

-- `std::max`.
abbrev max_ℤ : ℤ → ℤ → ℤ
max_ℤ a b = if ltb_ℤ a b then b else a

-- `std::min`.
abbrev min_ℤ : ℤ → ℤ → ℤ
min_ℤ a b = if ltb_ℤ b a then b else a

unfoldable pub tightest_lower : Option ℤ → Option ℤ → Option ℤ
tightest_lower none b = b
tightest_lower (some a) none = some a
tightest_lower (some a) (some b) = some (max_ℤ a b)

unfoldable pub tightest_upper : Option ℤ → Option ℤ → Option ℤ
tightest_upper none b = b
tightest_upper (some a) none = some a
tightest_upper (some a) (some b) = some (min_ℤ a b)

pub tightest_lower-min_length_ok :
    (a b n : Option ℤ)
    → min_length_ok (tightest_lower a b) n ≡ (min_length_ok a n && min_length_ok b n)
unfolding tightest_lower
tightest_lower-min_length_ok a b n = ground arith

pub tightest_upper-max_length_ok :
    (a b n : Option ℤ)
    → max_length_ok (tightest_upper a b) n ≡ (max_length_ok a n && max_length_ok b n)
unfolding tightest_upper
tightest_upper-max_length_ok a b n = ground arith

-- `==` of two `std::optional`s.
abbrev pub option_eq {ℓ} : {A : Type ℓ} → (A → A → Bool) → Option A → Option A → Bool
option_eq eq none none = true
option_eq eq (some a) (some b) = eq a b
option_eq eq _ _ = false

-- `==` of two `StringAttr`s, which are null when absent.
abbrev pub attr_eq : Option Bytes → Option Bytes → Bool
attr_eq = option_eq bytes_eq

-- `a && b && a != b`.
abbrev pub conflict : Option Bytes → Option Bytes → Bool
conflict (some a) (some b) = not (bytes_eq a b)
conflict _ _ = false

-- `a ? a : b`.
abbrev pub first_of {ℓ} : {A : Type ℓ} → Option A → Option A → Option A
first_of none b = b
first_of (some a) b = some a

pub first_of-text_ok :
    (test : Bytes → Option Bool) (a b : Option Bytes)
    → conflict a b ≡ false
    → text_ok test (first_of a b) ≡ (text_ok test a && text_ok test b)
first_of-text_ok test none b c = refl
first_of-text_ok test (some a) none c = ground arith
first_of-text_ok test (some a) (some b) c = ground (arith, bytes_eq→eq a b)
