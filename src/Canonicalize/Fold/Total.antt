-- ===== src/Canonicalize/Fold/Total.antt =====
-- The assertion of `buildConjunction`.
use json_schema_mlir.Prelude.{
  ℕ, zero, suc, ◌+◌, ◌≡◌, refl, ◌∙◌, Bool, false, not, ◌||◌, ◌==◌, Bool-cases, Option-cases, inl,
  inr, Option, some, ap, arith, ltb, ◌<◌, ◌≢◌, ◌⊎◌, map, get_elem?, List, [], ◌∷◌, ◌++◌, length,
}
use json_schema_mlir.Float.{Double}
use json_schema_mlir.Ops.{Value}
use json_schema_mlir.Ir.{and_i, Ir, defining_op, used_by_and_i, uses}
use json_schema_mlir.Canonicalize.Bounds.{option_eq}
use json_schema_mlir.Canonicalize.Conjuncts.{
  Conjunct, classify, collect_conjuncts, interior, unique_from, absorb, absorb_into, absorb_all,
  sweep, input_of, is_validator,
}
use json_schema_mlir.Canonicalize.Conjuncts.Absorb.{absorb_keeps}
use json_schema_mlir.Canonicalize.Conjuncts.Quiet.{AreNew, unique_from-AreNew, sweep-quiet}
use json_schema_mlir.Canonicalize.Fold.Combine.{
  Combine, Combine-symm, IsAbsorbed, Combine→IsAbsorbed,
}
use json_schema_mlir.Canonicalize.Fold.{
  Created, fresh_op, emit_operands, build_conjunction, finish, leaves, conjuncts_of,
  emit_conjunction, rewrite_root, match_and_rewrite,
}

abbrev NonEmpty {ℓ} : {A : Type ℓ} → List A → Type 0
NonEmpty [] = ⊥
NonEmpty (x ∷ xs) = Unit

NonEmpty-append : (xs ys : List Value) → NonEmpty xs → NonEmpty (xs ++ ys)
NonEmpty-append [] ys h = absurd h
NonEmpty-append (x ∷ xs) ys h = tt

module _ {D : Type 0} where
  -- The first conjunct is alive.
  abbrev HeadAlive : List (Conjunct D) → Type 0
  HeadAlive [] = ⊥
  HeadAlive (c ∷ cs) = c.dead ≡ false

  emit_operands-NonEmpty :
      (next : Value) (cs : List (Conjunct D)) → HeadAlive cs → NonEmpty (emit_operands next cs).0
  unfolding emit_operands
  emit_operands-NonEmpty next [] h = absurd h
  emit_operands-NonEmpty next (c ∷ cs) h = elim (Option-cases (fresh_op c)) [
    | inl e ↦ rw (h, emit_operands) (rw (e, emit_operands) tt)
    | inr (op, e) ↦ rw (h, emit_operands) (rw (e, emit_operands) tt)
  ]

  collect_conjuncts-NonEmpty :
      (fuel : ℕ) (ir : Ir D) (v : Value) → NonEmpty (collect_conjuncts fuel ir v)
  unfolding collect_conjuncts
  collect_conjuncts-NonEmpty zero ir v = tt
  collect_conjuncts-NonEmpty (suc fuel) ir v =
      elim (Option-cases (interior (uses ir v) (defining_op ir v))) [
        | inl e ↦ rw (e, collect_conjuncts) tt
        | inr ((l, r), e) ↦
            rw (e, collect_conjuncts)
              (NonEmpty-append (collect_conjuncts fuel ir l) (collect_conjuncts fuel ir r)
                (collect_conjuncts-NonEmpty fuel ir l))
      ]

module _ {D : Type 0} ⦃d : Double D⦄ where
  absorb_into-dead : (dst src : Conjunct D) → (absorb_into dst src).0.dead ≡ dst.dead
  unfolding absorb_into
  absorb_into-dead dst src =
      elim (Bool-cases
        (src.dead || not (option_eq ◌==◌ (input_of src.flavour) (input_of dst.flavour)))) [
          | inl skip ↦ rw skip
          | inr go ↦ elim (Option-cases (absorb dst src)) [
            | inl e ↦ rw go (rw e)
            | inr (dst', e) ↦ rw go (rw e (absorb_keeps dst src e).1)
          ]
        ]

  absorb_all-dead :
      (dst : Conjunct D) (rest : List (Conjunct D)) → (absorb_all dst rest).0.dead ≡ dst.dead
  unfolding absorb_all
  absorb_all-dead dst [] = refl
  absorb_all-dead dst (src ∷ rest) =
      absorb_all-dead (absorb_into dst src).0 rest ∙ absorb_into-dead dst src

  sweep-HeadAlive : (n : ℕ) (cs : List (Conjunct D)) → HeadAlive cs → HeadAlive (sweep n cs).0
  unfolding sweep
  sweep-HeadAlive zero cs h = h
  sweep-HeadAlive (suc n) [] h = h
  sweep-HeadAlive (suc n) (dst ∷ rest) h =
      elim (Bool-cases (dst.dead || not (is_validator dst.flavour))) [
        | inl e ↦ rw (e, HeadAlive) h
        | inr e ↦ rw (e, HeadAlive) (absorb_all-dead dst rest ∙ h)
      ]

  conjuncts_of-HeadAlive :
      (ir : Ir D) (vs : List Value) → NonEmpty vs → HeadAlive (conjuncts_of ir vs)
  unfolding unique_from classify
  conjuncts_of-HeadAlive ir [] h = absurd h
  conjuncts_of-HeadAlive ir (v ∷ vs) h = refl

  build_conjunction-some :
      (next : Value) (ops : Created D) (vs : List Value)
      → NonEmpty vs
      → (r : Value × Created D) × (finish ops (build_conjunction next vs) ≡ some r)
  unfolding build_conjunction
  build_conjunction-some next ops [] h = absurd h
  build_conjunction-some next ops (v ∷ vs) h = (_, refl)

  emit_conjunction-some :
      (ir : Ir D) (fuel next l r : Value)
      → let cs = conjuncts_of ir (leaves fuel ir l r) in
        (p : Value × Created D) × (emit_conjunction next (sweep (length cs) cs).0 ≡ some p)
  emit_conjunction-some ir fuel next l r =
      let vs = leaves fuel ir l r in
      let cs = conjuncts_of ir vs in
      let some_leaf =
        NonEmpty-append (collect_conjuncts fuel ir l) (collect_conjuncts fuel ir r)
          (collect_conjuncts-NonEmpty fuel ir l) in
      let swept = (sweep (length cs) cs).0 in
      let alive = sweep-HeadAlive (length cs) cs (conjuncts_of-HeadAlive ir vs some_leaf) in
      build_conjunction-some (next + length (emit_operands next swept).1)
        (emit_operands next swept).1 (emit_operands next swept).0
        (emit_operands-NonEmpty next swept alive)

  -- A leaf was repeated, or the sweep absorbed a conjunct.
  abbrev finds_change : Ir D → List Value → Bool
  finds_change ir vs =
      let cs = conjuncts_of ir vs in
      not (length (unique_from [] vs) == length vs) || (sweep (length cs) cs).1

  get_elem?-classify :
      (ir : Ir D) (vs : List Value) (i : ℕ) {v : Value}
      → get_elem? vs i ≡ some v
      → get_elem? (map (classify ir) vs) i ≡ some (classify ir v)
  get_elem?-classify ir [] i e = absurd (ground arith)
  get_elem?-classify ir (v ∷ vs) zero e =
      ap {B = Option (Conjunct D)} some (ap (classify ir) (ground arith))
  get_elem?-classify ir (v ∷ vs) (suc i) e = get_elem?-classify ir vs i e

  classify-alive : (ir : Ir D) (v : Value) → (classify ir v).dead ≡ false
  unfolding classify
  classify-alive ir v = refl

  -- Where nothing changes, no leaf is absorbed into one before it.
  not_absorbed :
      (ir : Ir D) (vs : List Value) (i j : ℕ) {v w : Value}
      → finds_change ir vs ≡ false
      → AreNew [] vs
      → i < j
      → get_elem? vs i ≡ some v
      → get_elem? vs j ≡ some w
      → IsAbsorbed ir v w
      → ⊥
  not_absorbed ir vs i j {v} {w} still new lt p q h =
      let cs = map (classify ir) vs in
      let flag : (sweep (length (conjuncts_of ir vs)) (conjuncts_of ir vs)).1 ≡ false =
        ground arith in
      let quiet =
        sweep-quiet (length cs) cs i j (omega arith) (rw new.kept at flag) lt
          (get_elem?-classify ir vs i p) (get_elem?-classify ir vs j q)
          (ground (arith, classify-alive ir v, h.validator)) in
      ground (arith, h.absorbed)

  changes :
      (ir : Ir D) (vs : List Value) (i j : ℕ) {v w : Value}
      → get_elem? vs i ≡ some v
      → get_elem? vs j ≡ some w
      → i ≢ j
      → (v ≡ w) ⊎ Combine ir v w
      → finds_change ir vs ≡ false
      → ⊥
  changes ir vs i j {v} {w} p q ne both still =
      let new = unique_from-AreNew [] vs (ground arith) in
      elim both [
        | inl same ↦ ne (new.once i j v p (rw (← same) at q))
        | inr c ↦ elim (Bool-cases (ltb i j)) [
          | inl lt ↦
              not_absorbed ir vs i j still new (ground arith) p q (Combine→IsAbsorbed ir v w c)
          | inr ge ↦
              not_absorbed ir vs j i still new (ground arith) q p
                (Combine→IsAbsorbed ir w v (Combine-symm ir v w c))
        ]
      ]

  -- The conjunction pattern gives a result at every `andi` of `i1`s that no `andi` uses, if at two
  -- places among its leaves the same value stands, or two validators of the same input that are
  -- combinable: of strings without different patterns or formats, or of numbers of which one
  -- divisor is a multiple of the other, if both have one. The conjunction built is never empty, as
  -- the assertion of `buildConjunction` demands.
  pub match_and_rewrite-some :
      (fuel : ℕ) (ir : Ir D) (next root l r : Value) (i j : ℕ) {v w : Value}
      → defining_op ir root ≡ some (and_i 1 l r)
      → used_by_and_i ir root ≡ false
      → get_elem? (leaves fuel ir l r) i ≡ some v
      → get_elem? (leaves fuel ir l r) j ≡ some w
      → i ≢ j
      → (v ≡ w) ⊎ Combine ir v w
      → (p : Value × Created D) × (match_and_rewrite fuel ir next root ≡ some p)
  unfolding match_and_rewrite rewrite_root
  match_and_rewrite-some fuel ir next root l r i j is outer at_i at_j ne both =
      let (p, e) = emit_conjunction-some ir fuel next l r in
      elim (Bool-cases (finds_change ir (leaves fuel ir l r))) [
        | inl change ↦ (p, rw (is, outer, change) e)
        | inr still ↦ absurd (changes ir (leaves fuel ir l r) i j at_i at_j ne both still)
      ]
