-- ===== src/Parser/Numbers.antt =====
-- The numbers of the nodes of a tree, in pre-order.
use json_schema_mlir.Prelude.{
  ℕ, zero, suc, ◌+◌, ◌≤◌, ◌≡◌, refl, ap, ◌∙◌, arith, true, false, List, [], ◌∷◌, ◌++◌, length,
  length-append,
}
use json_schema_mlir.Ast.{schema, info_of, property, property_only}
use json_schema_mlir.Ast.Walk.{Node, schema_node, property_node, keyword_node}
use json_schema_mlir.Parser.State.{State}
use json_schema_mlir.Parser.Steps.{Step, Move, was_quiet}

abbrev pub node_id : {D : Type 0} → Node D → ℕ
node_id (schema_node (schema i ks)) = i.id
node_id (property_node (property i s)) = i.id
node_id (property_node (property_only i)) = i.id
node_id (keyword_node k) = (info_of k).id

-- Strictly ascending numbers, from `lo` on and below `hi`.
abbrev pub Ascends : ℕ → List ℕ → ℕ → Type 0
Ascends lo [] hi = lo ≤ hi
Ascends lo (n ∷ ns) hi = (lo ≤ n) × Ascends (n + 1) ns hi

pub Ascends-append :
    (lo mid hi : ℕ) (ms ns : List ℕ)
    → Ascends lo ms mid
    → Ascends mid ns hi
    → Ascends lo (ms ++ ns) hi
Ascends-append lo mid hi [] [] a b = omega arith
Ascends-append lo mid hi [] (n ∷ ns) a (b, c) = (omega arith, c)
Ascends-append lo mid hi (m ∷ ms) ns (a, b) c = (a, Ascends-append (m + 1) mid hi ms ns b c)

pub Ascends-more : (lo mid hi : ℕ) (ns : List ℕ) → Ascends lo ns mid → mid ≤ hi → Ascends lo ns hi
Ascends-more lo mid hi [] a h = omega arith
Ascends-more lo mid hi (n ∷ ns) (a, b) h = (a, Ascends-more (n + 1) mid hi ns b h)

length-Ascends : (lo hi : ℕ) (ns : List ℕ) → Ascends lo ns hi → length ns + lo ≤ hi
length-Ascends lo hi [] a = omega arith
length-Ascends lo hi (n ∷ ns) (a, b) = let h = length-Ascends (n + 1) hi ns b in omega arith

-- The numbers from `lo` on.
abbrev pub from : ℕ → ℕ → List ℕ
from lo zero = []
from lo (suc n) = lo ∷ from (lo + 1) n

-- Ascending numbers with no room for gaps.
pub Ascends-from :
    (lo hi : ℕ) (ns : List ℕ) → Ascends lo ns hi → length ns + lo ≡ hi → ns ≡ from lo (length ns)
Ascends-from lo hi [] a e = refl
Ascends-from lo hi (n ∷ ns) (a, b) e =
    let h = length-Ascends (n + 1) hi ns b in
    let f : n ≡ lo = omega arith in
    let rest = Ascends-from (n + 1) hi ns b (omega arith) in
    ap (◌∷◌ n) rest ∙ ap (λ m. m ∷ from (m + 1) (length ns)) f

-- The numbers given out from `lo` on: all of them went to the nodes, unless the parse has failed.
pub record IsNumbered (lo : ℕ) (ns : List ℕ) (t : State) : Type 0 where
  pub ascends : Ascends lo ns t.next_id
  pub dense : t.failed ≡ false → length ns + lo ≡ t.next_id

pub none-IsNumbered : (t : State) → IsNumbered t.next_id [] t
none-IsNumbered t = record { ascends = omega arith; dense = λ e. omega arith }

pub IsNumbered-append :
    {lo : ℕ} {ms ns : List ℕ} {s t : State}
    → Step s t
    → IsNumbered lo ms s
    → IsNumbered s.next_id ns t
    → IsNumbered lo (ms ++ ns) t
IsNumbered-append {lo} {ms} {ns} {s} {t} p a b = record {
  ascends = Ascends-append lo s.next_id t.next_id ms ns a.ascends b.ascends;
  dense = λ e.
      let f = a.dense (was_quiet s.failed t.failed p.fails e) in
      let g = b.dense e in let h = length-append ms ns in omega arith;
}

-- Numbers that went to no node, in a parse that has failed.
pub IsNumbered-failed :
    {lo : ℕ} {ns : List ℕ} {s t : State}
    → Step s t
    → t.failed ≡ true
    → IsNumbered lo ns s
    → IsNumbered lo ns t
IsNumbered-failed {lo} {ns} {s} {t} p f a = record {
  ascends = Ascends-more lo s.next_id t.next_id ns a.ascends p.ids;
  dense = λ e. absurd (ground arith);
}

pub IsNumbered-carry :
    {lo : ℕ} {ns : List ℕ} {s t : State} → Move s t → IsNumbered lo ns s → IsNumbered lo ns t
IsNumbered-carry {lo} {ns} {s} {t} p a = record {
  ascends = Ascends-more lo s.next_id t.next_id ns a.ascends p.step.ids;
  dense = λ e.
      let f = a.dense (was_quiet s.failed t.failed p.step.fails e) in let g = p.same in omega arith;
}

-- A node and those below it.
pub IsNumbered-node :
    {ns : List ℕ} {t : State} (n : ℕ) → IsNumbered (n + 1) ns t → IsNumbered n (n ∷ ns) t
IsNumbered-node n a = record {
  ascends = (omega arith, a.ascends);
  dense = λ e. let f = a.dense e in omega arith;
}
