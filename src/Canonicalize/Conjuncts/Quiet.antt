-- ===== src/Canonicalize/Conjuncts/Quiet.antt =====
-- What is so of the leaves when `FoldConjunctiveValidations` finds nothing to change.
use json_schema_mlir.Prelude.{
  ℕ, zero, suc, ◌<◌, ◌≤◌, true, false, not, ◌||◌, ◌==◌, some, Option-cases, Bool-cases, inl, inr,
  List, [], ◌∷◌, All, length, get_elem?, ◌≡◌, refl, ◌∙◌, ap, arith,
}
use json_schema_mlir.Float.{Double}
use json_schema_mlir.Ops.{Value}
use json_schema_mlir.Canonicalize.Bounds.{option_eq}
use json_schema_mlir.Canonicalize.Conjuncts.{
  Conjunct, input_of, is_validator, mem_value, unique_from, absorb, absorb_into, absorb_all, sweep,
}

unique_from-seen :
    (seen vs : List Value) (v : Value)
    → mem_value seen v ≡ true
    → unique_from seen (v ∷ vs) ≡ unique_from seen vs
unfolding unique_from
unique_from-seen seen vs v e = rw (e, unique_from) refl

unique_from-new :
    (seen vs : List Value) (v : Value)
    → mem_value seen v ≡ false
    → unique_from seen (v ∷ vs) ≡ v ∷ unique_from (v ∷ seen) vs
unfolding unique_from
unique_from-new seen vs v e = rw (e, unique_from) refl

unique_from-length : (seen vs : List Value) → length (unique_from seen vs) ≤ length vs
unfolding unique_from
unique_from-length seen [] = omega arith
unique_from-length seen (v ∷ vs) = elim (Bool-cases (mem_value seen v)) [
  | inl e ↦ rw (unique_from-seen seen vs v e) (omega (arith, unique_from-length seen vs))
  | inr e ↦ rw (unique_from-new seen vs v e) (omega (arith, unique_from-length (v ∷ seen) vs))
]

-- No element is in `seen`, and none is at two places.
pub record AreNew (seen vs : List Value) : Type 0 where
  pub kept : unique_from seen vs ≡ vs
  pub unseen : (i : ℕ) (v : Value) → get_elem? vs i ≡ some v → mem_value seen v ≡ false
  pub once : (i j : ℕ) (v : Value) → get_elem? vs i ≡ some v → get_elem? vs j ≡ some v → i ≡ j

AreNew-cons :
    (seen vs : List Value) (v : Value)
    → mem_value seen v ≡ false
    → AreNew (v ∷ seen) vs
    → AreNew seen (v ∷ vs)
unfolding unique_from
AreNew-cons seen vs v e h = record {
  kept = unique_from-new seen vs v e ∙ ap (◌∷◌ v) h.kept;
  unseen = λ i w q. unseen i w q;
  once = λ i j w p q. once i j w p q;
}
  where
    unseen : (i : ℕ) (w : Value) → get_elem? (v ∷ vs) i ≡ some w → mem_value seen w ≡ false
    unseen zero w q = ground arith
    unseen (suc i) w q = ground (arith, h.unseen i w q)

    later : (i : ℕ) → get_elem? vs i ≡ some v → ⊥
    later i q = ground (arith, h.unseen i v q)

    once :
        (i j : ℕ) (w : Value)
        → get_elem? (v ∷ vs) i ≡ some w
        → get_elem? (v ∷ vs) j ≡ some w
        → i ≡ j
    once zero zero w p q = refl
    once zero (suc j) w p q = absurd (later j (ground arith))
    once (suc i) zero w p q = absurd (later i (ground arith))
    once (suc i) (suc j) w p q = ap suc (h.once i j w p q)

-- A list that loses no element has none twice.
pub unique_from-AreNew :
    (seen vs : List Value) → length (unique_from seen vs) ≡ length vs → AreNew seen vs
unfolding unique_from
unique_from-AreNew seen [] e = record {
  kept = refl;
  unseen = λ i v q. ground arith;
  once = λ i j v p q. ground arith;
}
unique_from-AreNew seen (v ∷ vs) e = elim (Bool-cases (mem_value seen v)) [
  | inl s ↦
      absurd
        (omega (arith, unique_from-length seen vs, ap length (unique_from-seen seen vs v s), e))
  | inr s ↦
      AreNew-cons seen vs v s (
        unique_from-AreNew (v ∷ seen) vs
          (omega (arith, ap length (unique_from-new seen vs v s), e)))
]

module _ {D : Type 0} ⦃d : Double D⦄ where
  -- A conjunct that is not absorbed leaves both as they are.
  absorb_into-quiet :
      (dst src : Conjunct D)
      → (absorb_into dst src).2 ≡ false
      → absorb_into dst src ≡ (dst, src, false)
  unfolding absorb_into
  absorb_into-quiet dst src =
      elim (Bool-cases
        (src.dead || not (option_eq ◌==◌ (input_of src.flavour) (input_of dst.flavour)))) [
          | inl skip ↦ rw skip (λ e. refl)
          | inr go ↦ elim (Option-cases (absorb dst src)) [
            | inl n ↦ rw (go, n) (λ e. refl)
            | inr (dst', s) ↦ rw go (rw s (λ e. ground arith))
          ]
        ]

  record IsQuiet (dst : Conjunct D) (rest : List (Conjunct D)) : Type 0 where
    kept : (absorb_all dst rest).1 ≡ rest
    none_absorbed : All (λ src. (absorb_into dst src).2 ≡ false) rest

  absorb_all-IsQuiet :
      (dst : Conjunct D) (rest : List (Conjunct D))
      → (absorb_all dst rest).2 ≡ false
      → IsQuiet dst rest
  unfolding absorb_all
  absorb_all-IsQuiet dst [] e = record { kept = refl; none_absorbed = tt }
  absorb_all-IsQuiet dst (src ∷ rest) e =
      let c : (absorb_into dst src).2 ≡ false = ground arith in
      let same = absorb_into-quiet dst src c in
      let later = absorb_all-IsQuiet dst rest (ground (arith, rw same at e)) in
      record { kept = rw same (ap (◌∷◌ src) later.kept); none_absorbed = (c, later.none_absorbed) }

  All-get :
      (P : Conjunct D → Type 0) (cs : List (Conjunct D)) (i : ℕ) {c : Conjunct D}
      → All P cs
      → get_elem? cs i ≡ some c
      → P c
  All-get P [] i h e = absurd (ground arith)
  All-get P (x ∷ cs) zero (p, h) e = let is : x ≡ _ = ground arith in rw is at p
  All-get P (x ∷ cs) (suc i) (p, h) e = All-get P cs i h e

  -- A sweep that reports no change absorbs no conjunct into one before it.
  pub sweep-quiet :
      (n : ℕ) (cs : List (Conjunct D)) (i j : ℕ) {a b : Conjunct D}
      → length cs ≤ n
      → (sweep n cs).1 ≡ false
      → i < j
      → get_elem? cs i ≡ some a
      → get_elem? cs j ≡ some b
      → (a.dead || not (is_validator a.flavour)) ≡ false
      → (absorb_into a b).2 ≡ false
  unfolding sweep
  sweep-quiet n [] i j fits e lt p q v = absurd (ground arith)
  sweep-quiet zero (dst ∷ rest) i j fits e lt p q v = absurd (omega arith)
  sweep-quiet (suc n) (dst ∷ rest) i zero fits e lt p q v = absurd (omega arith)
  sweep-quiet (suc n) (dst ∷ rest) zero (suc j) {a} {b} fits e lt p q v =
      let is : dst ≡ a = ground arith in
      let quiet = absorb_all-IsQuiet dst rest (ground arith) in
      rw (← is) (All-get (λ src. (absorb_into dst src).2 ≡ false) rest j quiet.none_absorbed q)
  sweep-quiet (suc n) (dst ∷ rest) (suc i) (suc j) {a} {b} fits e lt p q v =
      elim (Bool-cases (dst.dead || not (is_validator dst.flavour))) [
        | inl skip ↦ sweep-quiet n rest i j (omega arith) (rw skip at e) (omega arith) p q v
        | inr go ↦
            let quiet = absorb_all-IsQuiet dst rest (ground arith) in
            let later : (sweep n (absorb_all dst rest).1).1 ≡ false = ground arith in
            sweep-quiet n rest i j (omega arith) (rw quiet.kept at later) (omega arith) p q v
      ]
