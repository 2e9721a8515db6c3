-- ===== src/Importer/Kinds.antt =====
-- `InstanceKind`, `KindFact`, `collectKind` and `checkApplies`.
pub mod Types
pub mod Meaning
use json_schema_mlir.Prelude.{
  ℕ, Bool, true, false, not, ◌&&◌, ◌||◌, ◌==◌, Option, none, some, List, [], ◌∷◌, ◌++◌, Bytes,
  if◌then◌else◌,
}
use json_schema_mlir.Lexer.Source.{SourcePos}
use json_schema_mlir.Ast.{
  Located, JsonType, null_type, boolean_type, object_type, array_type, number_type, string_type,
  integer_type, KeywordInfo, SchemaNode, schema, Keywords, no_keywords, keyword_then, KeywordNode,
  type_keyword, all_of_keyword, Branches, no_branches, branch_then, info_of,
}

pub data InstanceKind : Type 0 where
  any_kind string_value_kind number_value_kind integer_value_kind object_value_kind : InstanceKind

pub record KindFact : Type 0 where
  pub kind : InstanceKind
  pub origin : Option (Located JsonType)

abbrev pub no_fact : KindFact
no_fact = record { kind = any_kind; origin = none }

-- The origin of a contradiction is that of the fact so far.
pub data ImportMessage : Type 0 where
  type_union : ImportMessage
  unsupported_type : JsonType → ImportMessage
  contradiction : JsonType → Option (Located JsonType) → ImportMessage
  requires : Bytes → Bytes → ImportMessage
  -- The names and spellings of two bounds, and the place of the second.
  no_number : Bytes → Bytes → Bytes → Bytes → SourcePos → ImportMessage
  -- A warning.
  no_effect : Bytes → InstanceKind → ImportMessage

pub record ImportDiagnostic : Type 0 where
  pub at : SourcePos
  pub message : ImportMessage

pub record Reports : Type 0 where
  pub failed : Bool
  pub diags : List ImportDiagnostic

-- `error` and `emitWarning`.
unfoldable pub import_error : SourcePos → ImportMessage → Reports → Reports
import_error at message s = record s {
  failed = true;
  diags = s.diags ++ (record { at = at; message = message } ∷ []);
}

unfoldable pub import_warning : SourcePos → ImportMessage → Reports → Reports
import_warning at message s = record s {
  diags = s.diags ++ (record { at = at; message = message } ∷ []);
}

abbrev pub kind_number : InstanceKind → ℕ
kind_number any_kind = 0
kind_number string_value_kind = 1
kind_number number_value_kind = 2
kind_number integer_value_kind = 3
kind_number object_value_kind = 4

abbrev pub same_kind : InstanceKind → InstanceKind → Bool
same_kind a b = kind_number a == kind_number b

-- The `switch` on the type.
unfoldable pub own_kind : JsonType → Option InstanceKind
own_kind string_type = some string_value_kind
own_kind number_type = some number_value_kind
own_kind integer_type = some integer_value_kind
own_kind object_type = some object_value_kind
own_kind null_type = none
own_kind boolean_type = none
own_kind array_type = none

abbrev pub Collected : Type 0
Collected = KindFact × Reports

abbrev pub meet_kind : Located JsonType → InstanceKind → Collected → Collected
meet_kind entry own (fact, s) =
    let have = fact.kind in
    if same_kind have any_kind
      || (same_kind have own
          || same_kind have number_value_kind && same_kind own integer_value_kind)
    then (record { kind = own; origin = some entry }, s)
    else if same_kind have integer_value_kind && same_kind own number_value_kind
    then (fact, s)
    else (fact, import_error entry.range.begin (contradiction entry.value fact.origin) s)

abbrev pub meet_entry : Located JsonType → Option InstanceKind → Collected → Collected
meet_entry entry none (fact, s) =
    (fact, import_error entry.range.begin (unsupported_type entry.value) s)
meet_entry entry (some own) c = meet_kind entry own c

unfoldable pub meet_types : KeywordInfo → List (Located JsonType) → Collected → Collected
meet_types i [] (fact, s) = (fact, import_error i.range.begin type_union s)
meet_types i (entry ∷ []) c = meet_entry entry (own_kind entry.value) c
meet_types i (entry ∷ other ∷ types) (fact, s) = (fact, import_error i.range.begin type_union s)

-- `find<TypeKeyword>`, and what is done with the keyword found.
unfoldable pub meet_type_keyword : {D : Type 0} → Keywords D → Collected → Collected
meet_type_keyword no_keywords c = c
meet_type_keyword (keyword_then (type_keyword i types) ks) c = meet_types i types c
meet_type_keyword (keyword_then _ ks) c = meet_type_keyword ks c

unfoldable mutual
  pub collect_kind : {D : Type 0} → SchemaNode D → Collected → Collected
  collect_kind (schema i ks) c = collect_all_of ks (meet_type_keyword ks c)

  -- `find<AllOfKeyword>`, and the loop over its branches.
  pub collect_all_of : {D : Type 0} → Keywords D → Collected → Collected
  collect_all_of no_keywords c = c
  collect_all_of (keyword_then (all_of_keyword i bs) ks) c = collect_branches bs c
  collect_all_of (keyword_then _ ks) c = collect_all_of ks c

  pub collect_branches : {D : Type 0} → Branches D → Collected → Collected
  collect_branches no_branches c = c
  collect_branches (branch_then b bs) c = collect_branches bs (collect_kind b c)

abbrev is_contained : List InstanceKind → InstanceKind → Bool
is_contained [] kind = false
is_contained (k ∷ ks) kind = same_kind k kind || is_contained ks kind

-- `checkApplies`.
unfoldable pub check_applies :
    {D : Type 0} → KeywordNode D → KindFact → List InstanceKind → Bytes → Reports → Bool × Reports
check_applies keyword fact accepted required s =
    let i = info_of keyword in
    if is_contained accepted fact.kind
    then (true, s)
    else if same_kind fact.kind any_kind
    then (false, import_error i.range.begin (requires i.name required) s)
    else (false, import_warning i.range.begin (no_effect i.name fact.kind) s)
