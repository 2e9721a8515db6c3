-- ===== src/Parser/Trees/Append.antt =====
-- Nodes added behind the others, and nodes given an end.
use json_schema_mlir.Prelude.{
  ℕ, ◌≡◌, refl, sym, ap, ◌∙◌, [], ◌∷◌, ◌++◌, map, append_assoc, append-nil,
}
use mathlib.Core.List.{map-append}
use json_schema_mlir.Float.{Double}
use json_schema_mlir.Lexer.Source.{SourcePos}
use json_schema_mlir.Ast.{
  SchemaNode, Keywords, no_keywords, keyword_then, KeywordNode, type_keyword, properties_keyword,
  required_keyword, all_of_keyword, number_keyword, length_keyword, string_keyword,
  annotation_keyword, unknown_keyword, info_of, Properties, no_properties, property_then,
  PropertyNode, Branches, no_branches, branch_then, append_keyword,
}
use json_schema_mlir.Ast.Walk.{
  schema_nodes, keywords_nodes, keyword_nodes, properties_nodes, property_nodes, branches_nodes,
}
use json_schema_mlir.Parser.Values.{Reading}
use json_schema_mlir.Parser.Keywords.{set_end}
use json_schema_mlir.Parser.Schemas.{append_property, append_branch}
use json_schema_mlir.Parser.Numbers.{node_id}
use json_schema_mlir.Parser.Shape.{
  names_of, property_name, property_names, IsSchema, AreKeywords, IsKeyword, AreProperties,
  IsProperty, AreBranches,
}

module _ {D : Type 0} where
  keywords_nodes-append_keyword :
      (ks : Keywords D) (k : KeywordNode D)
      → keywords_nodes (append_keyword ks k) ≡ keywords_nodes ks ++ keyword_nodes k
  unfolding keywords_nodes append_keyword
  keywords_nodes-append_keyword no_keywords k = append-nil (keyword_nodes k)
  keywords_nodes-append_keyword (keyword_then j ks) k =
      ap (◌++◌ (keyword_nodes j)) (keywords_nodes-append_keyword ks k)
      ∙ sym (append_assoc (keyword_nodes j) (keywords_nodes ks) (keyword_nodes k))

  pub ids-append_keyword :
      (ks : Keywords D) (k : KeywordNode D)
      → map node_id (keywords_nodes (append_keyword ks k))
        ≡ map node_id (keywords_nodes ks) ++ map node_id (keyword_nodes k)
  ids-append_keyword ks k =
      ap (map node_id) (keywords_nodes-append_keyword ks k)
      ∙ map-append node_id (keywords_nodes ks) (keyword_nodes k)

  properties_nodes-append_property :
      (ps : Properties D) (p : PropertyNode D)
      → properties_nodes (append_property ps p) ≡ properties_nodes ps ++ property_nodes p
  unfolding properties_nodes append_property
  properties_nodes-append_property no_properties p = append-nil (property_nodes p)
  properties_nodes-append_property (property_then q ps) p =
      ap (◌++◌ (property_nodes q)) (properties_nodes-append_property ps p)
      ∙ sym (append_assoc (property_nodes q) (properties_nodes ps) (property_nodes p))

  pub ids-append_property :
      (ps : Properties D) (p : PropertyNode D)
      → map node_id (properties_nodes (append_property ps p))
        ≡ map node_id (properties_nodes ps) ++ map node_id (property_nodes p)
  ids-append_property ps p =
      ap (map node_id) (properties_nodes-append_property ps p)
      ∙ map-append node_id (properties_nodes ps) (property_nodes p)

  branches_nodes-append_branch :
      (bs : Branches D) (b : SchemaNode D)
      → branches_nodes (append_branch bs b) ≡ branches_nodes bs ++ schema_nodes b
  unfolding branches_nodes append_branch
  branches_nodes-append_branch no_branches b = append-nil (schema_nodes b)
  branches_nodes-append_branch (branch_then c bs) b =
      ap (◌++◌ (schema_nodes c)) (branches_nodes-append_branch bs b)
      ∙ sym (append_assoc (schema_nodes c) (branches_nodes bs) (schema_nodes b))

  pub ids-append_branch :
      (bs : Branches D) (b : SchemaNode D)
      → map node_id (branches_nodes (append_branch bs b))
        ≡ map node_id (branches_nodes bs) ++ map node_id (schema_nodes b)
  ids-append_branch bs b =
      ap (map node_id) (branches_nodes-append_branch bs b)
      ∙ map-append node_id (branches_nodes bs) (schema_nodes b)

  pub names_of-append_keyword :
      (ks : Keywords D) (k : KeywordNode D)
      → names_of (append_keyword ks k) ≡ names_of ks ++ (info_of k).name ∷ []
  unfolding append_keyword
  names_of-append_keyword no_keywords k = refl
  names_of-append_keyword (keyword_then j ks) k =
      ap (◌∷◌ (info_of j).name) (names_of-append_keyword ks k)

  pub property_names-append_property :
      (ps : Properties D) (p : PropertyNode D)
      → property_names (append_property ps p) ≡ property_names ps ++ property_name p ∷ []
  unfolding append_property
  property_names-append_property no_properties p = refl
  property_names-append_property (property_then q ps) p =
      ap (◌∷◌ (property_name q)) (property_names-append_property ps p)

  pub ids-set_end :
      (e : SourcePos) (k : KeywordNode D)
      → map node_id (keyword_nodes (set_end e k)) ≡ map node_id (keyword_nodes k)
  unfolding set_end keyword_nodes
  ids-set_end e (type_keyword i types) = refl
  ids-set_end e (properties_keyword i ps) = refl
  ids-set_end e (required_keyword i names) = refl
  ids-set_end e (all_of_keyword i bs) = refl
  ids-set_end e (number_keyword i x spelling) = refl
  ids-set_end e (length_keyword i n) = refl
  ids-set_end e (string_keyword i text) = refl
  ids-set_end e (annotation_keyword i text) = refl
  ids-set_end e (unknown_keyword i) = refl

  pub name-set_end :
      (e : SourcePos) (k : KeywordNode D) → (info_of (set_end e k)).name ≡ (info_of k).name
  unfolding set_end
  name-set_end e (type_keyword i types) = refl
  name-set_end e (properties_keyword i ps) = refl
  name-set_end e (required_keyword i names) = refl
  name-set_end e (all_of_keyword i bs) = refl
  name-set_end e (number_keyword i x spelling) = refl
  name-set_end e (length_keyword i n) = refl
  name-set_end e (string_keyword i text) = refl
  name-set_end e (annotation_keyword i text) = refl
  name-set_end e (unknown_keyword i) = refl

module _ {D : Type 0} ⦃d : Double D⦄ (r : Reading D) where
  pub set_end-IsKeyword :
      (levels : ℕ) (e : SourcePos) (k : KeywordNode D)
      → IsKeyword r levels k
      → IsKeyword r levels (set_end e k)
  unfolding set_end IsKeyword
  set_end-IsKeyword levels e (type_keyword i types) h = h
  set_end-IsKeyword levels e (properties_keyword i ps) h = h
  set_end-IsKeyword levels e (required_keyword i names) h = h
  set_end-IsKeyword levels e (all_of_keyword i bs) h = h
  set_end-IsKeyword levels e (number_keyword i x spelling) h = h
  set_end-IsKeyword levels e (length_keyword i n) h = h
  set_end-IsKeyword levels e (string_keyword i text) h = h
  set_end-IsKeyword levels e (annotation_keyword i text) h = h
  set_end-IsKeyword levels e (unknown_keyword i) h = h

  pub append_keyword-AreKeywords :
      (levels : ℕ) (ks : Keywords D) (k : KeywordNode D)
      → AreKeywords r levels ks
      → IsKeyword r levels k
      → AreKeywords r levels (append_keyword ks k)
  unfolding append_keyword AreKeywords
  append_keyword-AreKeywords levels no_keywords k h g = (g, tt)
  append_keyword-AreKeywords levels (keyword_then j ks) k (a, h) g =
      (a, append_keyword-AreKeywords levels ks k h g)

  pub append_property-AreProperties :
      (levels : ℕ) (ps : Properties D) (p : PropertyNode D)
      → AreProperties r levels ps
      → IsProperty r levels p
      → AreProperties r levels (append_property ps p)
  unfolding append_property AreProperties
  append_property-AreProperties levels no_properties p h g = (g, tt)
  append_property-AreProperties levels (property_then q ps) p (a, h) g =
      (a, append_property-AreProperties levels ps p h g)

  pub append_branch-AreBranches :
      (levels : ℕ) (bs : Branches D) (b : SchemaNode D)
      → AreBranches r levels bs
      → IsSchema r levels b
      → AreBranches r levels (append_branch bs b)
  unfolding append_branch AreBranches
  append_branch-AreBranches levels no_branches b h g = (g, tt)
  append_branch-AreBranches levels (branch_then c bs) b (a, h) g =
      (a, append_branch-AreBranches levels bs b h g)
