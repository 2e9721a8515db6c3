-- ===== src/Parser/Trees/Members.antt =====
-- The members of `properties` and the branches of `allOf`.
use json_schema_mlir.Prelude.{
  ℕ, ◌+◌, ◌≡◌, refl, Bool-cases, inl, inr, Option, none, some, [], if◌then◌else◌,
}
use json_schema_mlir.Float.{Double}
use json_schema_mlir.Lexer.Token.{Token, l_brace, l_square}
use json_schema_mlir.Ast.{
  properties_kind, all_of_kind, SchemaNode, properties_keyword, all_of_keyword, Properties,
  no_properties, PropertyNode, PropertyInfo, Branches, no_branches,
}
use json_schema_mlir.Ast.Walk.{keyword_nodes, properties_nodes, property_nodes, branches_nodes}
use json_schema_mlir.Parser.State.{State, tok, is, peek_is_close, bump_id, empty_branches}
use json_schema_mlir.Parser.Loops.{and_then}
use json_schema_mlir.Parser.Values.{Reading, Seen, seen_at}
use json_schema_mlir.Parser.Names.{keyword_kind_of}
use json_schema_mlir.Parser.Vocabulary.{keyword_kind_of-IsCalled}
use json_schema_mlir.Parser.Keywords.{new_info}
use json_schema_mlir.Parser.Schemas.{
  Sub, mark, property_info, property_node, new_property, property_member, append_property,
  parse_properties_keyword, push_branch, branch_element, parse_all_of_keyword,
}
use json_schema_mlir.Parser.Steps.{Step, stay, ◌then◌, Move, bump_id-Step}
use json_schema_mlir.Parser.Steps.Moves.{Gives, gives, and_then-Gives, after}
use json_schema_mlir.Parser.Steps.Loops.{IsStable, parse_array-Gives, parse_object-Gives}
use json_schema_mlir.Parser.Steps.Values.{unless_seen-Gives}
use json_schema_mlir.Parser.Numbers.{
  IsNumbered, none-IsNumbered, IsNumbered-append, IsNumbered-failed, IsNumbered-carry,
  IsNumbered-node,
}
use json_schema_mlir.Parser.Shape.{
  property_name, property_names, IsKeyword, AreProperties, IsProperty, AreBranches,
}
use json_schema_mlir.Parser.Trees.{
  properties_ids, property_ids, branches_ids, one_number, SchemaResult, IsKeptKeyword,
  KeywordResult,
}
use json_schema_mlir.Parser.Trees.Append.{
  ids-append_property, property_names-append_property, append_property-AreProperties,
  ids-append_branch, append_branch-AreBranches,
}
use json_schema_mlir.Parser.Trees.Leaves.{bad_keyword-Gives, report_if-Move}
use json_schema_mlir.Parser.Trees.Seen.{AreSeen, none_seen, AreSeen-push}

module _ {D : Type 0} ⦃d : Double D⦄ (r : Reading D) (l : ℕ) where
  -- The schema parser for one level deeper.
  abbrev pub IsSub : Sub D → Type 0
  IsSub sub = (s : State) → Gives s (SchemaResult r l s) (sub s)

  -- The properties read so far, of the node that is numbered at `s`.
  pub record AreKeptProperties (s : State) (x : Seen × Properties D) (t : State) : Type 0 where
    pub numbered : IsNumbered (s.next_id + 1) (properties_ids x.1) t
    pub shaped : AreProperties r l x.1
    pub named : AreSeen x.0 (property_names x.1)

  AreKeptProperties-IsStable : (s : State) → IsStable (AreKeptProperties s)
  AreKeptProperties-IsStable s = record {
    carry = λ p h. record {
      numbered = IsNumbered-carry p h.numbered;
      shaped = h.shaped;
      named = h.named;
    };
  }

  property_node-IsNumbered :
      (i : PropertyInfo) (s : State) (o : Option (SchemaNode D)) (t : State)
      → i.id ≡ s.next_id
      → Step (bump_id s) t
      → SchemaResult r l (bump_id s) o t
      → IsNumbered s.next_id (property_ids (property_node i o)) t
  unfolding property_nodes
  property_node-IsNumbered i s none t e p f = rw e (IsNumbered-failed p f (one_number s refl))
  property_node-IsNumbered i s (some n) t e p h = rw e (IsNumbered-node s.next_id h.numbered)

  property_node-IsProperty :
      (i : PropertyInfo) (s : State) (o : Option (SchemaNode D)) (t : State)
      → SchemaResult r l s o t
      → IsProperty r l (property_node i o)
  unfolding IsProperty
  property_node-IsProperty i s none t h = tt
  property_node-IsProperty i s (some n) t h = h.shaped

  name-property_node :
      (i : PropertyInfo) (o : Option (SchemaNode D)) → property_name (property_node i o) ≡ i.name
  name-property_node i none = refl
  name-property_node i (some n) = refl

  push_property-AreKept :
      (s0 s : State) (name : Token) (seen : Seen) (ps : Properties D) (p : PropertyNode D)
      (t : State)
      → AreKeptProperties s0 (seen, ps) s
      → seen_at seen name.value ≡ none
      → Step s t
      → IsNumbered s.next_id (property_ids p) t
      → IsProperty r l p
      → property_name p ≡ name.value
      → AreKeptProperties s0 (mark name seen, append_property ps p) t
  push_property-AreKept s0 s name seen ps p t h e q n g f = record {
    numbered = rw (ids-append_property ps p) (IsNumbered-append q h.numbered n);
    shaped = append_property-AreProperties r l ps p h.shaped g;
    named = rw (property_names-append_property ps p, f) (AreSeen-push name e h.named);
  }

  property_member-Keeps :
      (sub : Sub D) (levels : ℕ) (s0 : State) (name : Token) (x : Seen × Properties D) (s : State)
      → IsSub sub
      → AreKeptProperties s0 x s
      → Gives s (AreKeptProperties s0) (property_member sub levels name x s)
  unfolding property_member
  property_member-Keeps sub levels s0 name (seen, ps) s k h =
      unless_seen-Gives (AreKeptProperties-IsStable s0) seen name levels (seen, ps)
        (λ s. and_then (sub (bump_id s)) (new_property name seen ps s.next_id)) s h
        (λ e. after (bump_id-Step s) (
          and_then-Gives (k (bump_id s)) (λ o t p g.
            let i = property_info name s.next_id t.last_end in
            gives stay (
              push_property-AreKept s0 s name seen ps (property_node i o) t h e
                (bump_id-Step s then p) (property_node-IsNumbered i s o t refl p g)
                (property_node-IsProperty i (bump_id s) o t g) (name-property_node i o)))))

  properties_node-IsKept :
      (key : Token) (s : State) (x : Seen × Properties D) (t : State)
      → keyword_kind_of key.value ≡ properties_kind
      → AreKeptProperties s x t
      → IsKeptKeyword r l key s (properties_keyword (new_info properties_kind key s) x.1) t
  unfolding keyword_nodes IsKeyword
  properties_node-IsKept key s x t e h = record {
    numbered = IsNumbered-node s.next_id h.numbered;
    shaped = ((refl, keyword_kind_of-IsCalled key.value e), h.named.distinct, h.shaped);
    named = refl;
  }

  no_properties-AreKept : (s : State) → AreKeptProperties s ([], no_properties) (bump_id s)
  unfolding properties_nodes AreProperties
  no_properties-AreKept s = record {
    numbered = none-IsNumbered (bump_id s);
    shaped = tt;
    named = none_seen;
  }

  pub parse_properties_keyword-Gives :
      (sub : Sub D) (key : Token) (levels : ℕ) (s : State)
      → IsSub sub
      → keyword_kind_of key.value ≡ properties_kind
      → Gives s (KeywordResult r l key s) (parse_properties_keyword sub key levels s)
  unfolding parse_properties_keyword
  parse_properties_keyword-Gives sub key levels s k e = elim (Bool-cases (is l_brace (tok s))) [
    | inl p ↦ rw p (
        after (bump_id-Step s) (
          and_then-Gives
            (parse_object-Gives (AreKeptProperties-IsStable s) (property_member sub levels)
              ([], no_properties) (bump_id s)
              (λ name x t h. property_member-Keeps sub levels s name x t k h)
              (no_properties-AreKept s))
            (λ x t q h. gives stay (properties_node-IsKept key s x t e h))))
    | inr p ↦ rw p (bad_keyword-Gives r l key levels s s stay)
  ]

  pub record AreKeptBranches (s : State) (bs : Branches D) (t : State) : Type 0 where
    pub numbered : IsNumbered (s.next_id + 1) (branches_ids bs) t
    pub shaped : AreBranches r l bs

  AreKeptBranches-IsStable : (s : State) → IsStable (AreKeptBranches s)
  AreKeptBranches-IsStable s = record {
    carry = λ p h. record { numbered = IsNumbered-carry p h.numbered; shaped = h.shaped };
  }

  push_branch-Gives :
      (s0 s : State) (bs : Branches D) (o : Option (SchemaNode D)) (t : State)
      → AreKeptBranches s0 bs s
      → Step s t
      → SchemaResult r l s o t
      → Gives t (AreKeptBranches s0) (push_branch bs o t)
  push_branch-Gives s0 s bs none t h p f =
      gives stay (record { numbered = IsNumbered-failed p f h.numbered; shaped = h.shaped })
  push_branch-Gives s0 s bs (some b) t h p g = gives stay (record {
    numbered = rw (ids-append_branch bs b) (IsNumbered-append p h.numbered g.numbered);
    shaped = append_branch-AreBranches r l bs b h.shaped g.shaped;
  })

  branch_element-Keeps :
      (sub : Sub D) (s0 : State) (bs : Branches D) (s : State)
      → IsSub sub
      → AreKeptBranches s0 bs s
      → Gives s (AreKeptBranches s0) (branch_element sub bs s)
  branch_element-Keeps sub s0 bs s k h =
      and_then-Gives (k s) (λ o t p g. push_branch-Gives s0 s bs o t h p g)

  all_of_node-Gives :
      (key : Token) (s : State) (bs : Branches D) {t u : State}
      → keyword_kind_of key.value ≡ all_of_kind
      → Move t u
      → AreKeptBranches s bs t
      → Gives t
          (KeywordResult r l key s)
          (some (some (all_of_keyword (new_info all_of_kind key s) bs), u))
  unfolding keyword_nodes IsKeyword
  all_of_node-Gives key s bs e p h = gives p.step (record {
    numbered = IsNumbered-node s.next_id (IsNumbered-carry p h.numbered);
    shaped = ((refl, keyword_kind_of-IsCalled key.value e), h.shaped);
    named = refl;
  })

  no_branches-AreKept : (s : State) → AreKeptBranches s no_branches (bump_id s)
  unfolding branches_nodes AreBranches
  no_branches-AreKept s = record { numbered = none-IsNumbered (bump_id s); shaped = tt }

  pub parse_all_of_keyword-Gives :
      (sub : Sub D) (key : Token) (levels : ℕ) (s : State)
      → IsSub sub
      → keyword_kind_of key.value ≡ all_of_kind
      → Gives s (KeywordResult r l key s) (parse_all_of_keyword sub key levels s)
  unfolding parse_all_of_keyword
  parse_all_of_keyword-Gives sub key levels s k e = elim (Bool-cases (is l_square (tok s))) [
    | inl p ↦ rw p (
        after (bump_id-Step s) (
          and_then-Gives
            (parse_array-Gives (AreKeptBranches-IsStable s) (branch_element sub) no_branches
              (bump_id s) (λ bs t h. branch_element-Keeps sub s bs t k h) (no_branches-AreKept s))
            (λ bs t q h.
              all_of_node-Gives key s bs e
                (report_if-Move (peek_is_close s) (tok s).range.begin empty_branches t) h)))
    | inr p ↦ rw p (bad_keyword-Gives r l key levels s s stay)
  ]
