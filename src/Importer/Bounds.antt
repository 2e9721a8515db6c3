-- ===== src/Importer/Bounds.antt =====
-- The number bounds of `checkBounds`.
pub mod Truth
use json_schema_mlir.Prelude.{
  ℕ, Bool, true, false, not, ◌&&◌, ◌||◌, ◌==◌, Option, none, some, Bytes, if◌then◌else◌,
}
use json_schema_mlir.Float.{Double}
use json_schema_mlir.Lexer.Source.{SourcePos}
use json_schema_mlir.Ast.{
  KeywordKind, minimum_kind, maximum_kind, exclusive_minimum_kind, exclusive_maximum_kind,
  multiple_of_kind, KeywordInfo, Keywords, no_keywords, keyword_then, number_keyword,
}
use json_schema_mlir.Importer.Kinds.{Reports, import_error, no_number}

pub record NumberBound (D : Type 0) : Type 0 where
  pub info : KeywordInfo
  pub value : D
  pub spelling : Bytes

-- The kinds of `NumberKeyword`.
abbrev pub number_kind : KeywordKind → ℕ
number_kind minimum_kind = 1
number_kind maximum_kind = 2
number_kind exclusive_minimum_kind = 3
number_kind exclusive_maximum_kind = 4
number_kind multiple_of_kind = 5
number_kind _ = 0

abbrev pub is_kind : KeywordKind → KeywordInfo → Bool
is_kind kind i = number_kind i.keyword_kind == number_kind kind

-- `find<NumberKeyword>(kind)`.
unfoldable pub find_number : {D : Type 0} → KeywordKind → Keywords D → Option (NumberBound D)
find_number kind no_keywords = none
find_number kind (keyword_then (number_keyword i x spelling) ks) =
    let rest = find_number kind ks in
    if is_kind kind i then some (record { info = i; value = x; spelling = spelling }) else rest
find_number kind (keyword_then _ ks) = find_number kind ks

module _ {D : Type 0} ⦃d : Double D⦄ where
  -- The body of the inner loop.
  unfoldable pub check_pair : Option (NumberBound D) → Option (NumberBound D) → Reports → Reports
  check_pair none upper s = s
  check_pair (some l) none s = s
  check_pair (some l) (some u) s =
      let exclusive =
        is_kind exclusive_minimum_kind l.info || is_kind exclusive_maximum_kind u.info in
      if d.lt l.value u.value || d.eq l.value u.value && not exclusive
      then s
      else import_error l.info.range.begin
          (no_number l.info.name l.spelling u.info.name u.spelling u.info.range.begin) s

  -- The two loops.
  unfoldable pub check_number_bounds : Keywords D → Reports → Reports
  check_number_bounds ks s =
      let minimum = find_number minimum_kind ks in
      let exclusive_minimum = find_number exclusive_minimum_kind ks in
      let maximum = find_number maximum_kind ks in
      let exclusive_maximum = find_number exclusive_maximum_kind ks in
      check_pair exclusive_minimum exclusive_maximum (
        check_pair exclusive_minimum maximum
          (check_pair minimum exclusive_maximum (check_pair minimum maximum s)))
