-- ===== src/Canonicalize/Fold/Combine.antt =====
-- Which leaves of a conjunction are combinable.
use json_schema_mlir.Prelude.{true, ◌==◌, inl, inr, ◌≡◌, refl, sym, arith, some}
use json_schema_mlir.Float.{Double}
use json_schema_mlir.Ops.{Value, ValidateStringOp, ValidateNumberOp}
use json_schema_mlir.Ir.{validate_string, validate_number, Ir, defining_op}
use json_schema_mlir.Canonicalize.StringLattice.{from_string_op}
use json_schema_mlir.Canonicalize.StringLattice.Order.{Agree, string_meet-some}
use json_schema_mlir.Canonicalize.NumberLattice.{from_number_op}
use json_schema_mlir.Canonicalize.NumberLattice.Meet.{Nested, number_meet-some}
use json_schema_mlir.Canonicalize.Conjuncts.{is_validator, classify, merge, absorb, absorb_into}

same_value : (v : Value) → (v == v) ≡ true
same_value v = ground arith

module _ {D : Type 0} ⦃d : Double D⦄ where
  -- Two validators of strings without different patterns or formats, or two of numbers of which
  -- one divisor is a multiple of the other, if both have one; both of the same input.
  pub data Combine (ir : Ir D) (v w : Value) : Type 0 where
    strings :
        (a b : ValidateStringOp)
        → defining_op ir v ≡ some (validate_string a)
        → defining_op ir w ≡ some (validate_string b)
        → a.input ≡ b.input
        → Agree a.regex b.regex
        → Agree a.format b.format
        → Combine ir v w
    numbers :
        (a b : ValidateNumberOp D)
        → defining_op ir v ≡ some (validate_number a)
        → defining_op ir w ≡ some (validate_number b)
        → a.input ≡ b.input
        → Nested a.multiple_of b.multiple_of
        → Combine ir v w

  pub Combine-symm : (ir : Ir D) (v w : Value) → Combine ir v w → Combine ir w v
  Combine-symm ir v w (strings a b p q i r f) =
      strings b a q p (sym i) (λ s t x y. sym (r t s y x)) (λ s t x y. sym (f t s y x))
  Combine-symm ir v w (numbers a b p q i n) =
      numbers b a q p (sym i) (λ x y e g. elim (n y x g e) [ inl h ↦ inr h | inr h ↦ inl h ])

  -- The code absorbs the conjunct of one into that of the other.
  pub record IsAbsorbed (ir : Ir D) (v w : Value) : Type 0 where
    pub validator : is_validator (classify ir v).flavour ≡ true
    pub absorbed : (absorb_into (classify ir v) (classify ir w)).2 ≡ true

  pub Combine→IsAbsorbed : (ir : Ir D) (v w : Value) → Combine ir v w → IsAbsorbed ir v w
  unfolding classify absorb_into absorb merge
  Combine→IsAbsorbed ir v w (strings a b p q i r f) =
      let (c, e) = string_meet-some (from_string_op a) (from_string_op b) r f in
      record { validator = rw p refl; absorbed = rw (p, q, i, same_value b.input, e) refl }
  Combine→IsAbsorbed ir v w (numbers a b p q i n) =
      let (c, e) = number_meet-some (from_number_op a) (from_number_op b) n in
      record { validator = rw p refl; absorbed = rw (p, q, i, same_value b.input, e) refl }
