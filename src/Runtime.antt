-- ===== src/Runtime.antt =====
-- The runtime ABI of include/Schema/SchemaPasses.h: the JSON kinds, and the functions that lowered
-- code calls. The runtime itself is a parameter.
use json_schema_mlir.Prelude.{ℕ, ◌≡◌, Bool, ℤ, pos, Option, some, List, get_elem?, Bytes}

pub data JsonKind : Type 0 where
  null boolean number string array object : JsonKind

-- `static_cast<int32_t>(kind)`.
abbrev pub tag : JsonKind → ℕ
tag null = 0
tag boolean = 1
tag number = 2
tag string = 3
tag array = 4
tag object = 5

-- `H` is the type of document handles. A projection of a value of another kind is undefined:
-- `none`. The functions that take an index read the module's string pool.
pub record Runtime (H D : Type 0) : Type 0 where
  pub kind : H → ℕ
  pub as_f64 : H → Option D
  pub str_len : H → Option ℤ
  pub matches : H → Bytes → Option Bool
  pub has_format : H → Bytes → Option Bool
  pub has_field : H → Bytes → Option Bool
  pub str_matches : List Bytes → H → ℕ → Option Bool
  pub str_format : List Bytes → H → ℕ → Option Bool
  pub has_field_at : List Bytes → H → ℕ → Option Bool

-- The projections of a kind are defined on the values of that kind, and an index stands for the
-- pool's entry.
pub record IsRuntime {H D : Type 0} (rt : Runtime H D) : Type 0 where
  pub as_f64_defined : (h : H) → rt.kind h ≡ tag number → (x : D) × (rt.as_f64 h ≡ some x)
  pub str_len_defined : (h : H) → rt.kind h ≡ tag string → (n : ℕ) × (rt.str_len h ≡ some (pos n))
  pub matches_defined :
      (h : H) (p : Bytes) → rt.kind h ≡ tag string → (b : Bool) × (rt.matches h p ≡ some b)
  pub has_format_defined :
      (h : H) (f : Bytes) → rt.kind h ≡ tag string → (b : Bool) × (rt.has_format h f ≡ some b)
  pub has_field_defined :
      (h : H) (f : Bytes) → rt.kind h ≡ tag object → (b : Bool) × (rt.has_field h f ≡ some b)
  pub str_matches_pool :
      (t : List Bytes) (h : H) (i : ℕ) (p : Bytes)
      → get_elem? t i ≡ some p
      → rt.str_matches t h i ≡ rt.matches h p
  pub str_format_pool :
      (t : List Bytes) (h : H) (i : ℕ) (f : Bytes)
      → get_elem? t i ≡ some f
      → rt.str_format t h i ≡ rt.has_format h f
  pub has_field_pool :
      (t : List Bytes) (h : H) (i : ℕ) (f : Bytes)
      → get_elem? t i ≡ some f
      → rt.has_field_at t h i ≡ rt.has_field h f
