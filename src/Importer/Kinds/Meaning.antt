-- ===== src/Importer/Kinds/Meaning.antt =====
-- What the kind means that is collected of a schema.
use json_schema_mlir.Prelude.{
  ◌≡◌, refl, ◌∙◌, ap, arith, Bool, true, false, ◌&&◌, ◌||◌, Option, List, [], ◌∷◌,
}
use json_schema_mlir.Lexer.Source.{SourceRange}
use json_schema_mlir.Ast.{
  Located, JsonType, null_type, boolean_type, object_type, array_type, number_type, string_type,
  integer_type, KeywordInfo, SchemaNode, schema, Keywords, no_keywords, keyword_then, type_keyword,
  properties_keyword, required_keyword, all_of_keyword, number_keyword, length_keyword,
  string_keyword, annotation_keyword, unknown_keyword, Branches, no_branches, branch_then,
}
use json_schema_mlir.Importer.Kinds.{
  InstanceKind, any_kind, string_value_kind, number_value_kind, integer_value_kind,
  object_value_kind, KindFact, Reports, import_error, own_kind, Collected, meet_entry, meet_types,
  meet_type_keyword, collect_kind, collect_all_of, collect_branches,
}
use json_schema_mlir.Importer.Kinds.Types.{
  null_value, boolean_value, object_value, array_value, whole_value, fraction_value, string_value,
  JsonValue, has_type, is_instance, has_any, meets_type, meets_types, meets_all_of, meets_branches,
}

-- From `c` to `e`, the kind was met with what `f` says, unless an error was reported.
record IsMeet (f : JsonValue → Bool) (c e : Collected) : Type 0 where
  pub fails : e.1.failed ≡ false → c.1.failed ≡ false
  pub means :
      e.1.failed ≡ false
      → (v : JsonValue) → is_instance e.0.kind v ≡ (is_instance c.0.kind v && f v)

and_true : (b : Bool) → b ≡ (b && true)
and_true true = refl
and_true false = refl

and_assoc : (a b c : Bool) → ((a && b) && c) ≡ (a && (b && c))
and_assoc true b c = refl
and_assoc false b c = refl

unmet : (c : Collected) → IsMeet (λ v. true) c c
unmet c = record { fails = λ e. e; means = λ e v. and_true (is_instance c.0.kind v) }

met_then :
    {f g : JsonValue → Bool} {c d e : Collected}
    → IsMeet f c d
    → IsMeet g d e
    → IsMeet (λ v. f v && g v) c e
met_then {f} {g} {c} p q = record {
  fails = λ h. p.fails (q.fails h);
  means = λ h v.
      rw (q.means h v, p.means (q.fails h) v) (and_assoc (is_instance c.0.kind v) (f v) (g v));
}

error_met : (f : JsonValue → Bool) {c e : Collected} → e.1.failed ≡ true → IsMeet f c e
error_met f h = record { fails = λ g. absurd (ground arith); means = λ g v. absurd (ground arith) }

idem : (b : Bool) → b ≡ (b && b)
idem true = refl
idem false = refl

integer_number :
    (v : JsonValue) → has_type integer_type v ≡ (has_type number_type v && has_type integer_type v)
integer_number null_value = refl
integer_number boolean_value = refl
integer_number object_value = refl
integer_number array_value = refl
integer_number whole_value = refl
integer_number fraction_value = refl
integer_number string_value = refl

number_integer :
    (v : JsonValue) → has_type integer_type v ≡ (has_type integer_type v && has_type number_type v)
number_integer null_value = refl
number_integer boolean_value = refl
number_integer object_value = refl
number_integer array_value = refl
number_integer whole_value = refl
number_integer fraction_value = refl
number_integer string_value = refl

entry-IsMeet :
    (t : JsonType) (range : SourceRange) (k : InstanceKind) (o : Option (Located JsonType))
    (s : Reports)
    → let entry : Located JsonType = record { value = t; range = range } in
      let fact : KindFact = record { kind = k; origin = o } in
      IsMeet (has_type t) (fact, s) (meet_entry entry (own_kind t) (fact, s))
unfolding own_kind import_error
entry-IsMeet null_type range k o s = error_met (has_type null_type) refl
entry-IsMeet boolean_type range k o s = error_met (has_type boolean_type) refl
entry-IsMeet array_type range k o s = error_met (has_type array_type) refl
entry-IsMeet string_type range any_kind o s = record { fails = λ e. e; means = λ e v. refl }
entry-IsMeet string_type range string_value_kind o s = record {
  fails = λ e. e;
  means = λ e v. idem (has_type string_type v);
}
entry-IsMeet string_type range number_value_kind o s = error_met (has_type string_type) refl
entry-IsMeet string_type range integer_value_kind o s = error_met (has_type string_type) refl
entry-IsMeet string_type range object_value_kind o s = error_met (has_type string_type) refl
entry-IsMeet number_type range any_kind o s = record { fails = λ e. e; means = λ e v. refl }
entry-IsMeet number_type range string_value_kind o s = error_met (has_type number_type) refl
entry-IsMeet number_type range number_value_kind o s = record {
  fails = λ e. e;
  means = λ e v. idem (has_type number_type v);
}
entry-IsMeet number_type range integer_value_kind o s = record {
  fails = λ e. e;
  means = λ e v. number_integer v;
}
entry-IsMeet number_type range object_value_kind o s = error_met (has_type number_type) refl
entry-IsMeet integer_type range any_kind o s = record { fails = λ e. e; means = λ e v. refl }
entry-IsMeet integer_type range string_value_kind o s = error_met (has_type integer_type) refl
entry-IsMeet integer_type range number_value_kind o s = record {
  fails = λ e. e;
  means = λ e v. integer_number v;
}
entry-IsMeet integer_type range integer_value_kind o s = record {
  fails = λ e. e;
  means = λ e v. idem (has_type integer_type v);
}
entry-IsMeet integer_type range object_value_kind o s = error_met (has_type integer_type) refl
entry-IsMeet object_type range any_kind o s = record { fails = λ e. e; means = λ e v. refl }
entry-IsMeet object_type range string_value_kind o s = error_met (has_type object_type) refl
entry-IsMeet object_type range number_value_kind o s = error_met (has_type object_type) refl
entry-IsMeet object_type range integer_value_kind o s = error_met (has_type object_type) refl
entry-IsMeet object_type range object_value_kind o s = record {
  fails = λ e. e;
  means = λ e v. idem (has_type object_type v);
}

or_false : (b : Bool) → b ≡ (b || false)
or_false true = refl
or_false false = refl

types-IsMeet :
    (i : KeywordInfo) (types : List (Located JsonType)) (c : Collected)
    → IsMeet (has_any types) c (meet_types i types c)
unfolding meet_types import_error
types-IsMeet i [] (fact, s) = error_met (has_any []) refl
types-IsMeet i (entry ∷ []) (fact, s) =
    let m = entry-IsMeet entry.value entry.range fact.kind fact.origin s in
    record {
      fails = m.fails;
      means = λ h v.
          m.means h v ∙ ap (λ b. is_instance fact.kind v && b) (or_false (has_type entry.value v));
    }
types-IsMeet i (entry ∷ other ∷ types) (fact, s) = error_met (has_any (entry ∷ other ∷ types)) refl

module _ {D : Type 0} where
  type_keyword-IsMeet :
      (ks : Keywords D) (c : Collected) → IsMeet (meets_type ks) c (meet_type_keyword ks c)
  unfolding meet_type_keyword
  type_keyword-IsMeet no_keywords c = unmet c
  type_keyword-IsMeet (keyword_then (type_keyword i types) ks) c = types-IsMeet i types c
  type_keyword-IsMeet (keyword_then (properties_keyword i ps) ks) c = type_keyword-IsMeet ks c
  type_keyword-IsMeet (keyword_then (required_keyword i names) ks) c = type_keyword-IsMeet ks c
  type_keyword-IsMeet (keyword_then (all_of_keyword i bs) ks) c = type_keyword-IsMeet ks c
  type_keyword-IsMeet (keyword_then (number_keyword i x spelling) ks) c = type_keyword-IsMeet ks c
  type_keyword-IsMeet (keyword_then (length_keyword i n) ks) c = type_keyword-IsMeet ks c
  type_keyword-IsMeet (keyword_then (string_keyword i text) ks) c = type_keyword-IsMeet ks c
  type_keyword-IsMeet (keyword_then (annotation_keyword i text) ks) c = type_keyword-IsMeet ks c
  type_keyword-IsMeet (keyword_then (unknown_keyword i) ks) c = type_keyword-IsMeet ks c

mutual
  unfolding collect_kind collect_all_of collect_branches meets_types meets_all_of meets_branches

  collect_kind-IsMeet :
      {D : Type 0} (n : SchemaNode D) (c : Collected) → IsMeet (meets_types n) c (collect_kind n c)
  collect_kind-IsMeet (schema i ks) c =
      met_then (type_keyword-IsMeet ks c) (all_of-IsMeet ks (meet_type_keyword ks c))

  all_of-IsMeet :
      {D : Type 0} (ks : Keywords D) (c : Collected)
      → IsMeet (meets_all_of ks) c (collect_all_of ks c)
  all_of-IsMeet no_keywords c = unmet c
  all_of-IsMeet (keyword_then (all_of_keyword i bs) ks) c = branches-IsMeet bs c
  all_of-IsMeet (keyword_then (type_keyword i types) ks) c = all_of-IsMeet ks c
  all_of-IsMeet (keyword_then (properties_keyword i ps) ks) c = all_of-IsMeet ks c
  all_of-IsMeet (keyword_then (required_keyword i names) ks) c = all_of-IsMeet ks c
  all_of-IsMeet (keyword_then (number_keyword i x spelling) ks) c = all_of-IsMeet ks c
  all_of-IsMeet (keyword_then (length_keyword i n) ks) c = all_of-IsMeet ks c
  all_of-IsMeet (keyword_then (string_keyword i text) ks) c = all_of-IsMeet ks c
  all_of-IsMeet (keyword_then (annotation_keyword i text) ks) c = all_of-IsMeet ks c
  all_of-IsMeet (keyword_then (unknown_keyword i) ks) c = all_of-IsMeet ks c

  branches-IsMeet :
      {D : Type 0} (bs : Branches D) (c : Collected)
      → IsMeet (meets_branches bs) c (collect_branches bs c)
  branches-IsMeet no_branches c = unmet c
  branches-IsMeet (branch_then b bs) c =
      met_then (collect_kind-IsMeet b c) (branches-IsMeet bs (collect_kind b c))

-- If collecting reports no error, then the kind collected holds exactly the values of the kind so far
-- that have, in the schema and in every branch of its `allOf`, one of the types asserted there.
pub collect_kind_lem :
    {D : Type 0} (n : SchemaNode D) (fact : KindFact) (s : Reports) (v : JsonValue)
    → (collect_kind n (fact, s)).1.failed ≡ false
    → is_instance (collect_kind n (fact, s)).0.kind v ≡ (is_instance fact.kind v && meets_types n v)
collect_kind_lem n fact s v h = (collect_kind-IsMeet n (fact, s)).means h v
