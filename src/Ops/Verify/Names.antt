-- ===== src/Ops/Verify/Names.antt =====
-- `StructOp::verify` and the names of a struct.
use json_schema_mlir.Prelude.{
  ◌≡◌, ◌↔◌, refl, sym, arith, Bool, true, false, ◌==◌, Bool-cases, inl, inr, List, [], ◌∷◌, length,
  All, Bytes, bytes_eq, bytes_eq→eq, eq→bytes_eq,
}
use json_schema_mlir.Ops.{StructOp}
use json_schema_mlir.Ops.Verify.{
  VerifyError, LogicalResult, success, failure, ◌>>◌, reject_if, is_empty, contains, verify_names,
  verify_required, verify_struct, required_of,
}

-- No name stands twice in a list.
abbrev pub Distinct : List Bytes → Type 0
Distinct [] = Unit
Distinct (x ∷ xs) = (contains xs x ≡ false) × Distinct xs

bytes_eq_symm : (x y : Bytes) → bytes_eq x y ≡ false → bytes_eq y x ≡ false
bytes_eq_symm x y h = elim (Bool-cases (bytes_eq y x)) [
  | inl e ↦ absurd (cc (eq→bytes_eq x y (sym (bytes_eq→eq y x e))))
  | inr e ↦ e
]

-- None of the names was seen.
abbrev Fresh : List Bytes → List Bytes → Type 0
Fresh seen names = All (λ x. contains seen x ≡ false) names

Fresh-cons :
    (n : Bytes) (seen ns : List Bytes) → contains ns n ≡ false → Fresh seen ns → Fresh (n ∷ seen) ns
Fresh-cons n seen [] h f = tt
Fresh-cons n seen (x ∷ xs) h (g, f) =
    (ground (arith, bytes_eq_symm x n), Fresh-cons n seen xs (ground arith) f)

Fresh-uncons :
    (n : Bytes) (seen ns : List Bytes)
    → Fresh (n ∷ seen) ns
    → (contains ns n ≡ false) × Fresh seen ns
Fresh-uncons n seen [] f = (refl, tt)
Fresh-uncons n seen (x ∷ xs) (g, f) =
    let (h, k) = Fresh-uncons n seen xs f in
    (ground (arith, bytes_eq_symm n x, h), (ground arith, k))

Fresh-nil : (ns : List Bytes) → Fresh [] ns
Fresh-nil [] = tt
Fresh-nil (x ∷ xs) = (refl, Fresh-nil xs)

then-success : (p q : LogicalResult) → (p >> q) ≡ success → (p ≡ success) × (q ≡ success)
then-success success q e = (refl, e)
then-success (failure x) q e = absurd (ground arith)

reject_if-success : (b : Bool) (e : VerifyError) → reject_if b e ≡ success → b ≡ false
reject_if-success b e h = ground arith

abbrev Named : List Bytes → Type 0
Named names = All (λ x. is_empty x ≡ false) names

verify_names→ :
    (seen names : List Bytes)
    → verify_names seen names ≡ success
    → Named names × Distinct names × Fresh seen names
unfolding verify_names
verify_names→ seen [] e = (tt, tt, tt)
verify_names→ seen (n ∷ ns) e =
    let a : is_empty n ≡ false = ground arith in
    let b : contains seen n ≡ false = ground arith in
    let (p, q, r) = verify_names→ (n ∷ seen) ns (ground arith) in
    let (s, t) = Fresh-uncons n seen ns r in ((a, p), (s, q), (b, t))

verify_names← :
    (seen names : List Bytes)
    → Named names
    → Distinct names
    → Fresh seen names
    → verify_names seen names ≡ success
unfolding verify_names
verify_names← seen [] p q r = refl
verify_names← seen (n ∷ ns) (a, p) (s, q) (b, r) =
    rw (a, b) (verify_names← (n ∷ seen) ns p q (Fresh-cons n seen ns s r))

verify_required→ :
    (declared seen names : List Bytes)
    → verify_required declared seen names ≡ success
    → All (λ x. contains declared x ≡ true) names × Distinct names × Fresh seen names
unfolding verify_required
verify_required→ declared seen [] e = (tt, tt, tt)
verify_required→ declared seen (n ∷ ns) e =
    let a : contains declared n ≡ true = ground arith in
    let b : contains seen n ≡ false = ground arith in
    let (p, q, r) = verify_required→ declared (n ∷ seen) ns (ground arith) in
    let (s, t) = Fresh-uncons n seen ns r in ((a, p), (s, q), (b, t))

verify_required← :
    (declared seen names : List Bytes)
    → All (λ x. contains declared x ≡ true) names
    → Distinct names
    → Fresh seen names
    → verify_required declared seen names ≡ success
unfolding verify_required
verify_required← declared seen [] p q r = refl
verify_required← declared seen (n ∷ ns) (a, p) (s, q) (b, r) =
    rw (a, b) (verify_required← declared (n ∷ seen) ns p q (Fresh-cons n seen ns s r))

-- What a `schema.struct` must be.
pub record IsWellFormed (op : StructOp) : Type 0 where
  pub type_named : is_empty op.type_name ≡ false
  pub one_result_each : (length op.field_names == length op.field_results) ≡ true
  pub fields_named : Named op.field_names
  pub fields_distinct : Distinct op.field_names
  pub required_declared :
      All (λ x. contains op.field_names x ≡ true) (required_of op.required_fields)
  pub required_distinct : Distinct (required_of op.required_fields)

verify_struct→ : (op : StructOp) → verify_struct op ≡ success → IsWellFormed op
unfolding verify_struct
verify_struct→ op e =
    let (p, e1) = then-success _ _ e in
    let (q, e2) = then-success _ _ e1 in
    let (r, e3) = then-success (verify_names [] op.field_names) _ e2 in
    let (a, b, c) = verify_names→ [] op.field_names r in
    let (x, y, z) = verify_required→ op.field_names [] (required_of op.required_fields) e3 in
    record {
      type_named = reject_if-success _ _ p;
      one_result_each = ground (arith, reject_if-success _ _ q);
      fields_named = a;
      fields_distinct = b;
      required_declared = x;
      required_distinct = y;
    }

verify_struct← : (op : StructOp) → IsWellFormed op → verify_struct op ≡ success
unfolding verify_struct
verify_struct← op w =
    let names =
      verify_names← [] op.field_names w.fields_named w.fields_distinct (Fresh-nil op.field_names) in
    let required =
      verify_required← op.field_names [] (required_of op.required_fields) w.required_declared
        w.required_distinct (Fresh-nil (required_of op.required_fields)) in
    rw (w.type_named, w.one_result_each, names) required

-- The verifier accepts a struct exactly when its type is named, there is one validator for each
-- field, the names of the fields are not empty and no two are the same, and the required names are
-- names of fields of which no two are the same.
pub verify_struct_lem : (op : StructOp) → (verify_struct op ≡ success) ↔ IsWellFormed op
verify_struct_lem op = (verify_struct→ op, verify_struct← op)
