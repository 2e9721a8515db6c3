-- ===== src/Tests/Rewrites.antt =====
-- Witnesses for the rewrite patterns: a function body that two string validators and their
-- conjunction make up, and one that a struct of them makes up.
use json_schema_mlir.Prelude.{
  ap, get_elem?, ◌++◌, List, ℕ, ◌≡◌, refl, arith, pos, true, false, ◌&&◌, ◌==◌, ==→eq, none, some,
  [], ◌∷◌, All, ◌<◌, Bool-cases, inl, inr,
}
use mathlib.Core.Option.{none-ne-some}
use json_schema_mlir.Float.Halves.{Halves, halves_double, Halves-IsOrdered, Halves-RoundsWhole}
use json_schema_mlir.Ops.{Value, ValidateStringOp, StructOp}
use json_schema_mlir.Ir.{
  Op, validate_string, validate_number, and_i, Ir, Env, IsRun, Computes, defining_op, uses,
  used_by_and_i, all_bits,
}
use json_schema_mlir.Semantics.{accepts_string_by}
use json_schema_mlir.Canonicalize.Bounds.{tightest_lower, tightest_upper}
use json_schema_mlir.Canonicalize.StringLattice.{
  StringLattice, string_meet, string_eq, string_subsumes, accepts_string, from_string_op,
}
use json_schema_mlir.Canonicalize.Conjuncts.{
  Conjunct, str, classify, collect_conjuncts, unique_from, absorb, merge, absorb_all, absorb_into,
  sweep, interior,
}
use json_schema_mlir.Canonicalize.Conjuncts.Collect.{
  all_bits-collect_conjuncts, IsRanked, collect_conjuncts-leaves,
}
use json_schema_mlir.Canonicalize.Conjuncts.Absorb.{
  AreExact, IsReady, IsTracked, value_of, absorb_lem,
}
use json_schema_mlir.Canonicalize.Conjuncts.Sweep.{all_true, sweep_lem}
use json_schema_mlir.Canonicalize.Fold.{
  match_and_rewrite, rewrite_root, emit_operands, build_conjunction, conjoin_all,
}
use json_schema_mlir.Canonicalize.Fold.Operations.{AreTame}
use json_schema_mlir.Canonicalize.Fold.Correct.{bit-match_and_rewrite}
use json_schema_mlir.Canonicalize.Fold.Combine.{Combine, strings}
use json_schema_mlir.Canonicalize.Fold.Total.{match_and_rewrite-some}
use json_schema_mlir.Canonicalize.Drop.{strictly_stronger, replace_all}
use json_schema_mlir.Canonicalize.Drop.Correct.{strictly_stronger-bit}
use json_schema_mlir.Canonicalize.Drop.Lowered.{eval-lower_struct-replace_all}
use json_schema_mlir.Lower.Pool.{Extends}
use json_schema_mlir.Lower.Expr.{eval}
use json_schema_mlir.Lower.Struct.{lower_struct, add_required}
use json_schema_mlir.Tests.Documents.{Doc, text_doc, documents, documents-IsRuntime, always}

abbrev word : Doc
word = text_doc (b'w' ∷ b'o' ∷ [])

abbrev env : Env Doc
env = always word

abbrev at_least : ℕ → ValidateStringOp
at_least n = record {
  input = 0;
  min_length = some (pos n);
  max_length = none;
  regex = none;
  format = none;
}

abbrev at_most_5 : ValidateStringOp
at_most_5 = record {
  input = 0;
  min_length = none;
  max_length = some (pos 5);
  regex = none;
  format = none;
}

-- `%3 = arith.andi %1, %2`.
abbrev body : Ir Halves
body = (1, validate_string (at_least 1)) ∷ (2, validate_string at_most_5) ∷ (3, and_i 1 1 2) ∷ []

-- What holds of every operation holds of the one that defines a value.
defining_op-All :
    (Q : Value → Op Halves → Type 0) (ir : Ir Halves)
    → All (λ p. Q p.0 p.1) ir
    → (v : Value) (op : Op Halves) → defining_op ir v ≡ some op
    → Q v op
unfolding defining_op
defining_op-All Q [] all v op e = absurd (none-ne-some op e)
defining_op-All Q ((w, o) ∷ ir) (q, all) v op e = elim (Bool-cases (w == v)) [
  | inl same ↦ let o_is : o ≡ op = ground arith in rw (← ==→eq w v same, ← o_is) q
  | inr other ↦ defining_op-All Q ir all v op (ground arith)
]

-- No number validator is among the operations.
abbrev NoNumber : Value → Op Halves → Type 0
NoNumber v (validate_number op) = ⊥
NoNumber v _ = Unit

exact_none : AreExact documents env (λ m. m ≡ none)
exact_none = record { exact = λ m n p q v. tt }

body-IsRun : IsRun documents body env
unfolding accepts_string accepts_string_by
body-IsRun = record {
  computes = defining_op-All (Computes documents env) body (refl, (refl, ((λ e. refl), tt)));
}

body-AreTame : AreTame body (λ m. m ≡ none)
body-AreTame = record {
  numbers = λ v op e.
      absurd (defining_op-All NoNumber body (tt, (tt, (tt, tt))) v (validate_number op) e);
}

abbrev one_to_5 : ValidateStringOp
one_to_5 = record (at_least 1) { max_length = some (pos 5) }

folded : match_and_rewrite 3 body 4 3 ≡ some (4, (4, validate_string one_to_5) ∷ [])
unfolding match_and_rewrite defining_op used_by_and_i rewrite_root collect_conjuncts uses
    unique_from classify sweep absorb_all absorb_into absorb merge string_meet tightest_lower
    tightest_upper string_eq emit_operands build_conjunction conjoin_all
folded = refl

bit-match_and_rewrite_example : env.bit 4 ≡ env.bit 3
unfolding accepts_string accepts_string_by
bit-match_and_rewrite_example =
    bit-match_and_rewrite Halves-IsOrdered Halves-RoundsWhole documents env exact_none body
      body-IsRun body-AreTame 3 4 3 folded (refl, tt)

all_bits-collect_conjuncts_example : all_bits env.bit (collect_conjuncts 2 body 3) ≡ env.bit 3
all_bits-collect_conjuncts_example = all_bits-collect_conjuncts documents 2 body env 3 body-IsRun

abbrev Falls : Value → Op Halves → Type 0
Falls v (and_i w l r) = (l < v) × (r < v)
Falls v _ = Unit

body-IsRanked : IsRanked body (λ v. v)
body-IsRanked = record {
  falls = λ v w l r e.
      defining_op-All Falls body (tt, (tt, ((omega arith, omega arith), tt))) v (and_i w l r) e;
}

collect_conjuncts-leaves_example :
    All (λ u. interior (uses body u) (defining_op body u) ≡ none) (collect_conjuncts 4 body 3)
collect_conjuncts-leaves_example =
    collect_conjuncts-leaves body (λ v. v) body-IsRanked 4 3 (omega arith)

abbrev lattice_1 : StringLattice
lattice_1 = from_string_op (at_least 1)

abbrev first : Conjunct Halves
first = record { value = 1; flavour = str 0 lattice_1; dead = false; dirty = false }

abbrev second : Conjunct Halves
second = record {
  value = 2;
  flavour = str 0 (from_string_op at_most_5);
  dead = false;
  dirty = false;
}

abbrev Ready : Conjunct Halves → Type 0
Ready = IsReady Halves-IsOrdered Halves-RoundsWhole documents env exact_none

abbrev Tracked : Conjunct Halves → Type 0
Tracked = IsTracked Halves-IsOrdered Halves-RoundsWhole documents env exact_none

both-Ready : Ready first × Ready second
unfolding accepts_string accepts_string_by
both-Ready =
    (record { computed = refl; ready_tame = tt }, record { computed = refl; ready_tame = tt })

first-Tracked : Tracked first
first-Tracked = record { clean = λ e. both-Ready.0.computed; tracked_tame = tt }

abbrev absorbed : Conjunct Halves
absorbed = record first { flavour = str 0 (from_string_op one_to_5); dirty = true }

absorb-first : absorb first second ≡ some absorbed
unfolding absorb merge string_meet tightest_lower tightest_upper string_eq
absorb-first = refl

absorb_lem_example :
    (value_of documents env absorbed
      ≡ (value_of documents env first && value_of documents env second))
    × Tracked absorbed
absorb_lem_example =
    absorb_lem Halves-IsOrdered Halves-RoundsWhole documents env exact_none first second
      absorb-first refl first-Tracked both-Ready.1

sweep_lem_example :
    (all_true documents env (sweep 2 (first ∷ second ∷ [])).0
      ≡ all_true documents env (first ∷ second ∷ []))
    × All Tracked (sweep 2 (first ∷ second ∷ [])).0
sweep_lem_example =
    sweep_lem Halves-IsOrdered Halves-RoundsWhole documents env exact_none 2 (first ∷ second ∷ [])
      (both-Ready.0, (both-Ready.1, tt))

-- Validators of which one is stronger, and a struct of both.
abbrev fields : Ir Halves
fields = (1, validate_string (at_least 1)) ∷ (2, validate_string (at_least 2)) ∷ []

fields-IsRun : IsRun documents fields env
unfolding accepts_string accepts_string_by
fields-IsRun = record {
  computes = defining_op-All (Computes documents env) fields (refl, (refl, tt));
}

fields-AreTame : AreTame fields (λ m. m ≡ none)
fields-AreTame = record {
  numbers =
      λ v op e. absurd (defining_op-All NoNumber fields (tt, (tt, tt)) v (validate_number op) e);
}

second_stronger : strictly_stronger fields 2 1 ≡ true
unfolding strictly_stronger defining_op string_subsumes
second_stronger = refl

strictly_stronger-bit_example : env.bit 1 ≡ true
strictly_stronger-bit_example =
    strictly_stronger-bit Halves-IsOrdered Halves-RoundsWhole documents env exact_none fields
      fields-IsRun fields-AreTame 2 1 second_stronger refl

abbrev pair : StructOp
pair = record {
  input = 0;
  field_results = 1 ∷ 2 ∷ [];
  type_name = b'p' ∷ [];
  field_names = (b'a' ∷ []) ∷ (b'b' ∷ []) ∷ [];
  required_fields = none;
  additional_properties = true;
}

pair_no_names : Extends (lower_struct {D = Halves} pair []).1 []
unfolding lower_struct add_required
pair_no_names i s e = e

eval-lower_struct-replace_all_example :
    eval documents env []
      (lower_struct
        (record pair { field_results = (replace_all fields 2 0 pair.field_results).0 })
        []).0
    ≡ eval documents env [] (lower_struct pair []).0
eval-lower_struct-replace_all_example =
    eval-lower_struct-replace_all Halves-IsOrdered Halves-RoundsWhole documents documents-IsRuntime
      env exact_none fields fields-IsRun fields-AreTame pair 2 [] [] pair_no_names

body_leaves : collect_conjuncts 2 body 1 ++ collect_conjuncts 2 body 2 ≡ 1 ∷ 2 ∷ []
unfolding collect_conjuncts defining_op uses
body_leaves = refl

root_outer : used_by_and_i body 3 ≡ false
unfolding used_by_and_i
root_outer = refl

root_is : defining_op body 3 ≡ some (and_i 1 1 2)
unfolding defining_op
root_is = refl

-- Neither has a pattern or a format.
body-Combine : Combine body 1 2
unfolding defining_op
body-Combine =
    strings (at_least 1) at_most_5 refl refl refl (λ s t p q. absurd (none-ne-some s p))
      (λ s t p q. absurd (none-ne-some s p))

match_and_rewrite-some_example :
    (p : Value × List (Value × Op Halves)) × (match_and_rewrite 2 body 4 3 ≡ some p)
match_and_rewrite-some_example =
    match_and_rewrite-some 2 body 4 3 1 2 0 1 root_is root_outer
      (ap (λ vs. get_elem? vs 0) body_leaves) (ap (λ vs. get_elem? vs 1) body_leaves)
      (λ e. omega (arith, e)) (inr body-Combine)
