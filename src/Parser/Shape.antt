-- ===== src/Parser/Shape.antt =====
-- What holds of the trees that the parser builds.
use json_schema_mlir.Prelude.{
  ℕ, zero, suc, ℤ, ◌≡◌, Bool, true, false, ◌==◌, List, [], ◌∷◌, ◌++◌, All, All-append, Bytes,
  bytes_eq,
}
use json_schema_mlir.Float.{Double, IsWhole}
use json_schema_mlir.Ast.{
  Located, JsonType, KeywordKind, type_kind, properties_kind, required_kind, all_of_kind,
  annotation_kind, unknown_kind, minimum_kind, maximum_kind, exclusive_minimum_kind,
  exclusive_maximum_kind, multiple_of_kind, min_length_kind, max_length_kind, pattern_kind,
  format_kind, KeywordInfo, SchemaNode, schema, Keywords, no_keywords, keyword_then, KeywordNode,
  type_keyword, properties_keyword, required_keyword, all_of_keyword, number_keyword,
  length_keyword, string_keyword, annotation_keyword, unknown_keyword, info_of, PropertyNode,
  property, property_only, Properties, no_properties, property_then, Branches, no_branches,
  branch_then,
}
use json_schema_mlir.Parser.Values.{Reading}
use json_schema_mlir.Parser.Vocabulary.{IsCalled}
use json_schema_mlir.Parser.Keywords.{type_number}

-- No two entries have the same value.
abbrev pub Distinct {ℓ} : {A : Type ℓ} → (A → A → Bool) → List A → Type 0
Distinct same [] = Unit
Distinct same (x ∷ xs) = All (λ y. same x y ≡ false) xs × Distinct same xs

pub Distinct-push :
    {A : Type 0} (same : A → A → Bool) (xs : List A) (y : A)
    → Distinct same xs
    → All (λ x. same x y ≡ false) xs
    → Distinct same (xs ++ y ∷ [])
Distinct-push same [] y d h = (tt, tt)
Distinct-push same (x ∷ xs) y (a, d) (e, h) =
    (All-append (λ z. same x z ≡ false) xs (y ∷ []) a (e, tt), Distinct-push same xs y d h)

abbrev pub same_type : Located JsonType → Located JsonType → Bool
same_type a b = type_number a.value == type_number b.value

abbrev pub same_name : Located Bytes → Located Bytes → Bool
same_name a b = bytes_eq a.value b.value

module _ {D : Type 0} where
  abbrev pub names_of : Keywords D → List Bytes
  names_of no_keywords = []
  names_of (keyword_then k ks) = (info_of k).name ∷ names_of ks

  abbrev pub property_name : PropertyNode D → Bytes
  property_name (property i s) = i.name
  property_name (property_only i) = i.name

  abbrev pub property_names : Properties D → List Bytes
  property_names no_properties = []
  property_names (property_then p ps) = property_name p ∷ property_names ps

-- The name of a node is a word for its kind.
abbrev pub IsNamed : KeywordInfo → Type 0
IsNamed i = IsCalled i.keyword_kind i.name

abbrev pub IsOfKind : KeywordKind → KeywordInfo → Type 0
IsOfKind kind i = (i.keyword_kind ≡ kind) × IsCalled kind i.name

-- The kinds of keywords with a number, with a length, and with a string.
abbrev pub IsNumberKind : KeywordKind → Type 0
IsNumberKind minimum_kind = Unit
IsNumberKind maximum_kind = Unit
IsNumberKind exclusive_minimum_kind = Unit
IsNumberKind exclusive_maximum_kind = Unit
IsNumberKind multiple_of_kind = Unit
IsNumberKind _ = ⊥

abbrev pub IsLengthKind : KeywordKind → Type 0
IsLengthKind min_length_kind = Unit
IsLengthKind max_length_kind = Unit
IsLengthKind _ = ⊥

abbrev pub IsStringKind : KeywordKind → Type 0
IsStringKind pattern_kind = Unit
IsStringKind format_kind = Unit
IsStringKind _ = ⊥

-- A length: the integer of a finite number that is whole, not negative and at most 2^53.
pub record IsLength {D : Type 0} ⦃d : Double D⦄ (r : Reading D) (n : ℤ) : Type 0 where
  pub number : D
  pub finite : d.is_finite number ≡ true
  pub not_negative : d.lt number d.nought ≡ false
  pub is_whole : IsWhole number
  pub not_larger : d.lt r.max_exact number ≡ false
  pub length_is : n ≡ r.to_int64 number

unfoldable mutual
  -- A schema with at most as many levels of schemas, itself one of them.
  pub IsSchema : {D : Type 0} ⦃d : Double D⦄ → Reading D → ℕ → SchemaNode D → Type 0
  IsSchema r zero (schema i ks) = ⊥
  IsSchema r (suc levels) (schema i ks) = Distinct bytes_eq (names_of ks) × AreKeywords r levels ks

  pub AreKeywords : {D : Type 0} ⦃d : Double D⦄ → Reading D → ℕ → Keywords D → Type 0
  AreKeywords r levels no_keywords = Unit
  AreKeywords r levels (keyword_then k ks) = IsKeyword r levels k × AreKeywords r levels ks

  pub IsKeyword : {D : Type 0} ⦃d : Double D⦄ → Reading D → ℕ → KeywordNode D → Type 0
  IsKeyword r levels (type_keyword i types) = IsOfKind type_kind i × Distinct same_type types
  IsKeyword r levels (properties_keyword i ps) =
      IsOfKind properties_kind i × Distinct bytes_eq (property_names ps) × AreProperties r levels ps
  IsKeyword r levels (required_keyword i names) =
      IsOfKind required_kind i × Distinct same_name names
  IsKeyword r levels (all_of_keyword i bs) = IsOfKind all_of_kind i × AreBranches r levels bs
  IsKeyword ⦃d⦄ r levels (number_keyword i x spelling) =
      IsNumberKind i.keyword_kind × IsNamed i × (d.is_finite x ≡ true)
  IsKeyword r levels (length_keyword i n) = IsLengthKind i.keyword_kind × IsNamed i × IsLength r n
  IsKeyword r levels (string_keyword i text) = IsStringKind i.keyword_kind × IsNamed i
  IsKeyword r levels (annotation_keyword i text) = IsOfKind annotation_kind i
  IsKeyword r levels (unknown_keyword i) = IsOfKind unknown_kind i

  pub AreProperties : {D : Type 0} ⦃d : Double D⦄ → Reading D → ℕ → Properties D → Type 0
  AreProperties r levels no_properties = Unit
  AreProperties r levels (property_then p ps) = IsProperty r levels p × AreProperties r levels ps

  pub IsProperty : {D : Type 0} ⦃d : Double D⦄ → Reading D → ℕ → PropertyNode D → Type 0
  IsProperty r levels (property i s) = IsSchema r levels s
  IsProperty r levels (property_only i) = Unit

  pub AreBranches : {D : Type 0} ⦃d : Double D⦄ → Reading D → ℕ → Branches D → Type 0
  AreBranches r levels no_branches = Unit
  AreBranches r levels (branch_then s bs) = IsSchema r levels s × AreBranches r levels bs
