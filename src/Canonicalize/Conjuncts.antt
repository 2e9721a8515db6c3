-- ===== src/Canonicalize/Conjuncts.antt =====
-- `Conjunct`, `classify`, `collectConjuncts` and `absorb`, and the sweep of
-- `FoldConjunctiveValidations`. Source locations are not modelled.
pub mod Collect
pub mod Equal
pub mod Absorb
pub mod Sweep
pub mod Quiet
use json_schema_mlir.Prelude.{
  ℕ, zero, suc, Bool, true, false, not, ◌&&◌, ◌||◌, ◌==◌, Option, none, some, List, [], ◌∷◌, ◌++◌,
  length, if◌then◌else◌,
}
use json_schema_mlir.Float.{Double}
use json_schema_mlir.Ops.{Value}
use json_schema_mlir.Ir.{Op, validate_string, validate_number, and_i, Ir, defining_op, uses}
use json_schema_mlir.Canonicalize.StringLattice.{
  StringLattice, from_string_op, string_meet, string_eq,
}
use json_schema_mlir.Canonicalize.NumberLattice.{
  NumberLattice, from_number_op, number_meet, number_eq,
}
use json_schema_mlir.Canonicalize.Bounds.{option_eq}

-- The `input`, `str` and `num` of a conjunct: at most one of the two lattices is there.
pub data Flavour (D : Type 0) : Type 0 where
  str : Value → StringLattice → Flavour D
  num : Value → NumberLattice D → Flavour D
  opaque : Flavour D

pub record Conjunct (D : Type 0) : Type 0 where
  pub value : Value
  pub flavour : Flavour D
  pub dead : Bool
  pub dirty : Bool

module _ {D : Type 0} where
  abbrev pub input_of : Flavour D → Option Value
  input_of (str v l) = some v
  input_of (num v l) = some v
  input_of opaque = none

  abbrev pub is_validator : Flavour D → Bool
  is_validator opaque = false
  is_validator _ = true

  abbrev pub flavour_of : Option (Op D) → Flavour D
  flavour_of (some (validate_string op)) = str op.input (from_string_op op)
  flavour_of (some (validate_number op)) = num op.input (from_number_op op)
  flavour_of _ = opaque

  unfoldable pub classify : Ir D → Value → Conjunct D
  classify ir v = record {
    value = v;
    flavour = flavour_of (defining_op ir v);
    dead = false;
    dirty = false;
  }

  -- The operands of an `andi` of `i1`s with one use.
  abbrev pub interior : ℕ → Option (Op D) → Option (Value × Value)
  interior n (some (and_i w l r)) = if w == 1 && n == 1 then some (l, r) else none
  interior n _ = none

  -- The recursion takes fuel, one for each level of the tree; without fuel a value is a leaf.
  unfoldable pub collect_conjuncts : ℕ → Ir D → Value → List Value
  collect_conjuncts zero ir v = v ∷ []
  collect_conjuncts (suc fuel) ir v = elim (interior (uses ir v) (defining_op ir v)) [
    | none ↦ v ∷ []
    | some (l, r) ↦ collect_conjuncts fuel ir l ++ collect_conjuncts fuel ir r
  ]

-- The elements in order of their first occurrence, as a `SetVector` keeps them.
abbrev pub mem_value : List Value → Value → Bool
mem_value [] v = false
mem_value (w ∷ ws) v = w == v || mem_value ws v

unfoldable pub unique_from : List Value → List Value → List Value
unique_from seen [] = []
unique_from seen (v ∷ vs) = elim (mem_value seen v) [
  | true ↦ unique_from seen vs
  | false ↦ v ∷ unique_from (v ∷ seen) vs
]

module _ {D : Type 0} ⦃d : Double D⦄ where
  abbrev merged_string :
      Value
      → StringLattice
      → StringLattice
      → Option StringLattice
      → Option (Bool × Bool × Flavour D)
  merged_string v a b none = none
  merged_string v a b (some m) = some (string_eq m a, string_eq m b, str v m)

  abbrev merged_number :
      Value
      → NumberLattice D
      → NumberLattice D
      → Option (NumberLattice D)
      → Option (Bool × Bool × Flavour D)
  merged_number v a b none = none
  merged_number v a b (some m) = some (number_eq m a, number_eq m b, num v m)

  -- The meet of two validators of one kind, and whether it equals each of them.
  unfoldable pub merge : Flavour D → Flavour D → Option (Bool × Bool × Flavour D)
  merge (str v a) (str w b) = merged_string v a b (string_meet a b)
  merge (num v a) (num w b) = merged_number v a b (number_meet a b)
  merge _ _ = none

  abbrev pub adopt : Conjunct D → Conjunct D → Bool × Bool × Flavour D → Conjunct D
  adopt dst src (same_dst, same_src, m) =
      if same_dst
      then record dst { flavour = m }
      else if same_src
      then record dst { value = src.value; flavour = m; dirty = false }
      else record dst { flavour = m; dirty = true }

  -- `none`: the two are not combinable.
  unfoldable pub absorb : Conjunct D → Conjunct D → Option (Conjunct D)
  absorb dst src = elim (merge dst.flavour src.flavour) [
    | none ↦ none
    | some m ↦ some (adopt dst src m)
  ]

  -- One round of the inner loop: the two conjuncts, and whether `src` was absorbed.
  unfoldable pub absorb_into : Conjunct D → Conjunct D → Conjunct D × Conjunct D × Bool
  absorb_into dst src =
      if src.dead || not (option_eq ◌==◌ (input_of src.flavour) (input_of dst.flavour))
      then (dst, src, false)
      else elim (absorb dst src) [
        | none ↦ (dst, src, false)
        | some dst' ↦ (dst', record src { dead = true }, true)
      ]

  -- The inner loop: `dst` and the conjuncts behind it.
  unfoldable pub absorb_all : Conjunct D → List (Conjunct D) → Conjunct D × List (Conjunct D) × Bool
  absorb_all dst [] = (dst, [], false)
  absorb_all dst (src ∷ rest) =
      let (dst1, src1, c) = absorb_into dst src in
      let (dst2, rest2, cs) = absorb_all dst1 rest in (dst2, src1 ∷ rest2, c || cs)

  -- The outer loop, for as many rounds as there are conjuncts.
  unfoldable pub sweep : ℕ → List (Conjunct D) → List (Conjunct D) × Bool
  sweep zero cs = (cs, false)
  sweep (suc n) [] = ([], false)
  sweep (suc n) (dst ∷ rest) =
      if dst.dead || not (is_validator dst.flavour)
      then (let (rest', c) = sweep n rest in (dst ∷ rest', c))
      else (let (dst', rest1, c1) = absorb_all dst rest in
          let (rest2, c2) = sweep n rest1 in (dst' ∷ rest2, c1 || c2))
