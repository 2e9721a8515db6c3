-- ===== src/Parser/Trees.antt =====
-- What the parsers of keywords and of schemas promise of their results.
pub mod Append
pub mod Entries
pub mod Leaves
pub mod Scalars
pub mod Seen
pub mod Members
pub mod Schemas
use json_schema_mlir.Prelude.{
  ℕ, suc, ◌+◌, ◌≤◌, ◌≡◌, arith, Bool, true, Option, none, some, List, [], ◌∷◌, map, Bytes, bytes_eq,
  All,
}
use json_schema_mlir.Float.{Double}
use json_schema_mlir.Lexer.Token.{Token}
use json_schema_mlir.Ast.{
  KeywordInfo, SchemaNode, Keywords, KeywordNode, info_of, Properties, PropertyNode, Branches,
}
use json_schema_mlir.Ast.Walk.{
  schema_nodes, keywords_nodes, keyword_nodes, properties_nodes, property_nodes, branches_nodes,
}
use json_schema_mlir.Parser.State.{State, bump_id}
use json_schema_mlir.Parser.Values.{Reading}
use json_schema_mlir.Parser.Numbers.{node_id, IsNumbered}
use json_schema_mlir.Parser.Shape.{IsSchema, IsKeyword}

module _ {D : Type 0} where
  abbrev pub schema_ids : SchemaNode D → List ℕ
  schema_ids s = map node_id (schema_nodes s)

  abbrev pub keywords_ids : Keywords D → List ℕ
  keywords_ids ks = map node_id (keywords_nodes ks)

  abbrev pub keyword_ids : KeywordNode D → List ℕ
  keyword_ids k = map node_id (keyword_nodes k)

  abbrev pub properties_ids : Properties D → List ℕ
  properties_ids ps = map node_id (properties_nodes ps)

  abbrev pub property_ids : PropertyNode D → List ℕ
  property_ids p = map node_id (property_nodes p)

  abbrev pub branches_ids : Branches D → List ℕ
  branches_ids bs = map node_id (branches_nodes bs)

-- A node with no other below it.
pub one_number :
    (s : State) {t : State} → t.next_id ≡ s.next_id + 1 → IsNumbered s.next_id (s.next_id ∷ []) t
one_number s e = record { ascends = (omega arith, omega arith); dense = λ f. omega arith }

module _ {D : Type 0} ⦃d : Double D⦄ (r : Reading D) where
  pub record IsKeptSchema (levels : ℕ) (s : State) (node : SchemaNode D) (t : State) : Type 0 where
    pub numbered : IsNumbered s.next_id (schema_ids node) t
    pub shaped : IsSchema r levels node

  -- The schemas below a keyword have so many levels at most.
  pub record IsKeptKeyword (levels : ℕ) (key : Token) (s : State) (k : KeywordNode D) (t : State)
      : Type 0 where
    pub numbered : IsNumbered s.next_id (keyword_ids k) t
    pub shaped : IsKeyword r levels k
    pub named : (info_of k).name ≡ key.value

  -- No node is left out but in a parse that has failed.
  abbrev pub SchemaResult : ℕ → State → Option (SchemaNode D) → State → Type 0
  SchemaResult levels s none t = t.failed ≡ true
  SchemaResult levels s (some node) t = IsKeptSchema levels s node t

  abbrev pub KeywordResult : ℕ → Token → State → Option (KeywordNode D) → State → Type 0
  KeywordResult levels key s none t = t.failed ≡ true
  KeywordResult levels key s (some k) t = IsKeptKeyword levels key s k t
