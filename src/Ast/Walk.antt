-- ===== src/Ast/Walk.antt =====
-- `getChildren` and `walk`, and the nodes of a tree in pre-order.
use json_schema_mlir.Prelude.{
  length-append, append-nil, ℕ, zero, suc, ◌≤◌, Option, none, some, ◌≡◌, refl, ap, ◌∙◌, arith, List,
  [], ◌∷◌, ◌++◌, length,
}
use json_schema_mlir.Ast.{
  SchemaNode, schema, Keywords, no_keywords, keyword_then, KeywordNode, type_keyword,
  properties_keyword, required_keyword, all_of_keyword, number_keyword, length_keyword,
  string_keyword, annotation_keyword, unknown_keyword, Properties, no_properties, property_then,
  PropertyNode, property_only, property, Branches, no_branches, branch_then,
}

pub data Node (D : Type 0) : Type 0 where
  schema_node : SchemaNode D → Node D
  property_node : PropertyNode D → Node D
  keyword_node : KeywordNode D → Node D

module _ {D : Type 0} where
  abbrev pub keyword_children : Keywords D → List (Node D)
  keyword_children no_keywords = []
  keyword_children (keyword_then k ks) = keyword_node k ∷ keyword_children ks

  abbrev pub property_children : Properties D → List (Node D)
  property_children no_properties = []
  property_children (property_then p ps) = property_node p ∷ property_children ps

  abbrev pub branch_children : Branches D → List (Node D)
  branch_children no_branches = []
  branch_children (branch_then s ss) = schema_node s ∷ branch_children ss

  unfoldable pub get_children : Node D → List (Node D)
  get_children (schema_node (schema i ks)) = keyword_children ks
  get_children (property_node (property i s)) = schema_node s ∷ []
  get_children (property_node (property_only i)) = []
  get_children (keyword_node (properties_keyword i ps)) = property_children ps
  get_children (keyword_node (all_of_keyword i ss)) = branch_children ss
  get_children (keyword_node _) = []

-- The nodes of a loop over children, where `f` gives those of each.
abbrev both {ℓ} : {A : Type ℓ} → Option (List A) → Option (List A) → Option (List A)
both none o = none
both (some xs) none = none
both (some xs) (some ys) = some (xs ++ ys)

abbrev prepend {ℓ} : {A : Type ℓ} → A → Option (List A) → Option (List A)
prepend x none = none
prepend x (some xs) = some (x ∷ xs)

abbrev each {ℓ} : {A : Type ℓ} → (A → Option (List A)) → List A → Option (List A)
each f [] = some []
each f (c ∷ cs) = both (f c) (each f cs)

-- The nodes on which `walk` calls its function, in order. The recursion takes fuel, one unit for
-- each level of the tree, and `none` means that it ran out.
unfoldable pub walk : {D : Type 0} → ℕ → Node D → Option (List (Node D))
walk zero node = none
walk (suc n) node = prepend node (each (walk n) (get_children node))

-- The nodes of a tree in pre-order, by recursion on the tree.
unfoldable mutual
  pub schema_nodes : {D : Type 0} → SchemaNode D → List (Node D)
  schema_nodes (schema i ks) = schema_node (schema i ks) ∷ keywords_nodes ks

  pub keywords_nodes : {D : Type 0} → Keywords D → List (Node D)
  keywords_nodes no_keywords = []
  keywords_nodes (keyword_then k ks) = keyword_nodes k ++ keywords_nodes ks

  pub keyword_nodes : {D : Type 0} → KeywordNode D → List (Node D)
  keyword_nodes (properties_keyword i ps) =
      keyword_node (properties_keyword i ps) ∷ properties_nodes ps
  keyword_nodes (all_of_keyword i ss) = keyword_node (all_of_keyword i ss) ∷ branches_nodes ss
  keyword_nodes k = keyword_node k ∷ []

  pub properties_nodes : {D : Type 0} → Properties D → List (Node D)
  properties_nodes no_properties = []
  properties_nodes (property_then p ps) = property_nodes p ++ properties_nodes ps

  pub property_nodes : {D : Type 0} → PropertyNode D → List (Node D)
  property_nodes (property i s) = property_node (property i s) ∷ schema_nodes s
  property_nodes (property_only i) = property_node (property_only i) ∷ []

  pub branches_nodes : {D : Type 0} → Branches D → List (Node D)
  branches_nodes no_branches = []
  branches_nodes (branch_then s ss) = schema_nodes s ++ branches_nodes ss

abbrev pub preorder : {D : Type 0} → Node D → List (Node D)
preorder (schema_node s) = schema_nodes s
preorder (property_node p) = property_nodes p
preorder (keyword_node k) = keyword_nodes k

-- A loop that walks its first child, and then the others.
each-both :
    {A : Type 0} (f : A → Option (List A)) (c : A) (cs xs ys : List A)
    → f c ≡ some xs
    → each f cs ≡ some ys
    → each f (c ∷ cs) ≡ some (xs ++ ys)
each-both f c cs xs ys p q = rw (p, q)

-- A walk of a node whose children are walked.
walk-node :
    {D : Type 0} (n : ℕ) (node : Node D) (xs : List (Node D))
    → each (walk n) (get_children node) ≡ some xs
    → walk (suc n) node ≡ some (node ∷ xs)
unfolding walk
walk-node n node xs e = rw e

mutual
  unfolding schema_nodes keywords_nodes keyword_nodes properties_nodes property_nodes branches_nodes
      get_children

  walk-schema :
      {D : Type 0} (s : SchemaNode D) (n : ℕ)
      → length (schema_nodes s) ≤ n
      → walk n (schema_node s) ≡ some (schema_nodes s)
  walk-schema (schema i ks) zero h = absurd (omega arith)
  walk-schema (schema i ks) (suc n) h =
      walk-node n (schema_node (schema i ks)) (keywords_nodes ks) (walk-keywords ks n (omega arith))

  walk-keywords :
      {D : Type 0} (ks : Keywords D) (n : ℕ)
      → length (keywords_nodes ks) ≤ n
      → each (walk n) (keyword_children ks) ≡ some (keywords_nodes ks)
  walk-keywords no_keywords n h = refl
  walk-keywords (keyword_then k ks) n h =
      let e = length-append (keyword_nodes k) (keywords_nodes ks) in
      each-both (walk n) (keyword_node k) (keyword_children ks) (keyword_nodes k)
        (keywords_nodes ks) (walk-keyword k n (omega arith)) (walk-keywords ks n (omega arith))

  walk-keyword :
      {D : Type 0} (k : KeywordNode D) (n : ℕ)
      → length (keyword_nodes k) ≤ n
      → walk n (keyword_node k) ≡ some (keyword_nodes k)
  walk-keyword (properties_keyword i ps) (suc n) h =
      walk-node n (keyword_node (properties_keyword i ps)) (properties_nodes ps)
        (walk-properties ps n (omega arith))
  walk-keyword (all_of_keyword i ss) (suc n) h =
      walk-node n (keyword_node (all_of_keyword i ss)) (branches_nodes ss)
        (walk-branches ss n (omega arith))
  walk-keyword (type_keyword i x) (suc n) h = walk-node n _ [] refl
  walk-keyword (required_keyword i x) (suc n) h = walk-node n _ [] refl
  walk-keyword (number_keyword i x y) (suc n) h = walk-node n _ [] refl
  walk-keyword (length_keyword i x) (suc n) h = walk-node n _ [] refl
  walk-keyword (string_keyword i x) (suc n) h = walk-node n _ [] refl
  walk-keyword (annotation_keyword i x) (suc n) h = walk-node n _ [] refl
  walk-keyword (unknown_keyword i) (suc n) h = walk-node n _ [] refl
  walk-keyword (properties_keyword i ps) zero h = absurd (omega arith)
  walk-keyword (all_of_keyword i ss) zero h = absurd (omega arith)
  walk-keyword (type_keyword i x) zero h = absurd (omega arith)
  walk-keyword (required_keyword i x) zero h = absurd (omega arith)
  walk-keyword (number_keyword i x y) zero h = absurd (omega arith)
  walk-keyword (length_keyword i x) zero h = absurd (omega arith)
  walk-keyword (string_keyword i x) zero h = absurd (omega arith)
  walk-keyword (annotation_keyword i x) zero h = absurd (omega arith)
  walk-keyword (unknown_keyword i) zero h = absurd (omega arith)

  walk-properties :
      {D : Type 0} (ps : Properties D) (n : ℕ)
      → length (properties_nodes ps) ≤ n
      → each (walk n) (property_children ps) ≡ some (properties_nodes ps)
  walk-properties no_properties n h = refl
  walk-properties (property_then p ps) n h =
      let e = length-append (property_nodes p) (properties_nodes ps) in
      each-both (walk n) (property_node p) (property_children ps) (property_nodes p)
        (properties_nodes ps) (walk-property p n (omega arith)) (walk-properties ps n (omega arith))

  walk-property :
      {D : Type 0} (p : PropertyNode D) (n : ℕ)
      → length (property_nodes p) ≤ n
      → walk n (property_node p) ≡ some (property_nodes p)
  walk-property (property i s) zero h = absurd (omega arith)
  walk-property (property_only i) zero h = absurd (omega arith)
  walk-property (property_only i) (suc n) h = walk-node n _ [] refl
  walk-property (property i s) (suc n) h =
      walk-node n (property_node (property i s)) (schema_nodes s) (
        each-both (walk n) (schema_node s) [] (schema_nodes s) [] (walk-schema s n (omega arith))
          refl
        ∙ ap {B = Option _} some (append-nil (schema_nodes s)))

  walk-branches :
      {D : Type 0} (ss : Branches D) (n : ℕ)
      → length (branches_nodes ss) ≤ n
      → each (walk n) (branch_children ss) ≡ some (branches_nodes ss)
  walk-branches no_branches n h = refl
  walk-branches (branch_then s ss) n h =
      let e = length-append (schema_nodes s) (branches_nodes ss) in
      each-both (walk n) (schema_node s) (branch_children ss) (schema_nodes s) (branches_nodes ss)
        (walk-schema s n (omega arith)) (walk-branches ss n (omega arith))

walk-any :
    {D : Type 0} (node : Node D) (n : ℕ)
    → length (preorder node) ≤ n
    → walk n node ≡ some (preorder node)
walk-any (schema_node s) n h = walk-schema s n h
walk-any (property_node p) n h = walk-property p n h
walk-any (keyword_node k) n h = walk-keyword k n h

-- With at least as much fuel as the tree has nodes, a walk calls its function on every node of the
-- tree once, in pre-order.
pub walk_lem :
    {D : Type 0} (node : Node D) (n : ℕ)
    → length (preorder node) ≤ n
    → walk n node ≡ some (preorder node)
walk_lem node n h = walk-any node n h
