-- ===== src/Ast.antt =====
-- include/Schema/Import/AST.h: the tree of a schema, its keywords and properties. A node's kind is
-- its constructor.
pub mod Names
pub mod Walk
pub mod Quote
use json_schema_mlir.Prelude.{
  ℕ, ℤ, Bool, true, false, ◌&&◌, Option, none, some, List, [], ◌∷◌, Bytes, bytes_eq, if◌then◌else◌,
}
use json_schema_mlir.Lexer.Source.{SourcePos, SourceRange}

pub record Located (A : Type 0) : Type 0 where
  pub value : A
  pub range : SourceRange

pub data JsonType : Type 0 where
  null_type boolean_type object_type array_type number_type string_type integer_type : JsonType

pub data KeywordKind : Type 0 where
  type_kind properties_kind required_kind all_of_kind : KeywordKind
  minimum_kind maximum_kind exclusive_minimum_kind exclusive_maximum_kind : KeywordKind
  multiple_of_kind min_length_kind max_length_kind pattern_kind format_kind : KeywordKind
  annotation_kind unknown_kind : KeywordKind

-- The fields of `Node` and of `KeywordNode`.
pub record KeywordInfo : Type 0 where
  pub id : ℕ
  pub range : SourceRange
  pub keyword_kind : KeywordKind
  pub name : Bytes
  pub key_range : SourceRange

pub record SchemaInfo : Type 0 where
  pub id : ℕ
  pub range : SourceRange

pub record PropertyInfo : Type 0 where
  pub id : ℕ
  pub range : SourceRange
  pub name : Bytes
  pub name_range : SourceRange

mutual
  pub data SchemaNode (D : Type 0) : Type 0 where
    schema : SchemaInfo → Keywords D → SchemaNode D

  pub data Keywords (D : Type 0) : Type 0 where
    no_keywords : Keywords D
    keyword_then : KeywordNode D → Keywords D → Keywords D

  pub data KeywordNode (D : Type 0) : Type 0 where
    type_keyword : KeywordInfo → List (Located JsonType) → KeywordNode D
    properties_keyword : KeywordInfo → Properties D → KeywordNode D
    required_keyword : KeywordInfo → List (Located Bytes) → KeywordNode D
    all_of_keyword : KeywordInfo → Branches D → KeywordNode D
    number_keyword : KeywordInfo → D → Bytes → KeywordNode D
    length_keyword : KeywordInfo → ℤ → KeywordNode D
    string_keyword : KeywordInfo → Bytes → KeywordNode D
    annotation_keyword : KeywordInfo → Option Bytes → KeywordNode D
    unknown_keyword : KeywordInfo → KeywordNode D

  pub data Properties (D : Type 0) : Type 0 where
    no_properties : Properties D
    property_then : PropertyNode D → Properties D → Properties D

  pub data PropertyNode (D : Type 0) : Type 0 where
    property_only : PropertyInfo → PropertyNode D
    property : PropertyInfo → SchemaNode D → PropertyNode D

  pub data Branches (D : Type 0) : Type 0 where
    no_branches : Branches D
    branch_then : SchemaNode D → Branches D → Branches D

abbrev title_name : Bytes
title_name = b't' ∷ b'i' ∷ b't' ∷ b'l' ∷ b'e' ∷ []

abbrev pub or_else : Option Bytes → Option Bytes → Option Bytes
or_else none o = o
or_else (some s) o = some s

module _ {D : Type 0} where
  abbrev pub info_of : KeywordNode D → KeywordInfo
  info_of (type_keyword i types) = i
  info_of (properties_keyword i ps) = i
  info_of (required_keyword i names) = i
  info_of (all_of_keyword i bs) = i
  info_of (number_keyword i x spelling) = i
  info_of (length_keyword i n) = i
  info_of (string_keyword i s) = i
  info_of (annotation_keyword i text) = i
  info_of (unknown_keyword i) = i

  -- `addKeyword`.
  unfoldable pub append_keyword : Keywords D → KeywordNode D → Keywords D
  append_keyword no_keywords k = keyword_then k no_keywords
  append_keyword (keyword_then j ks) k = keyword_then j (append_keyword ks k)

  abbrev pub add_keyword : SchemaNode D → KeywordNode D → SchemaNode D
  add_keyword (schema i ks) k = schema i (append_keyword ks k)

  -- The loop of `find`; the predicate is the test for the class and the kind.
  unfoldable pub find_keyword : (KeywordNode D → Bool) → Keywords D → Option (KeywordNode D)
  find_keyword test no_keywords = none
  find_keyword test (keyword_then k ks) =
      let rest = find_keyword test ks in if test k then some k else rest

  abbrev pub find : (KeywordNode D → Bool) → SchemaNode D → Option (KeywordNode D)
  find test (schema i ks) = find_keyword test ks

  abbrev pub title_text : KeywordNode D → Option Bytes
  title_text (annotation_keyword i (some text)) =
      if bytes_eq i.name title_name then some text else none
  title_text _ = none

  unfoldable pub title_from : Keywords D → Option Bytes
  title_from no_keywords = none
  title_from (keyword_then k ks) = or_else (title_text k) (title_from ks)

  -- `getTitle`.
  abbrev pub get_title : SchemaNode D → Option Bytes
  get_title (schema i ks) = title_from ks
