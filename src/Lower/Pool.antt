-- ===== src/Lower/Pool.antt =====
-- `StringPool`: the literals in the order of their first interning; an index is a position.
use json_schema_mlir.Prelude.{
  ℕ, zero, suc, ◌+◌, Option, some, List, [], ◌∷◌, get_elem?, Bytes, bytes_eq, bytes_eq→eq,
  bytes_eq_refl, Bool-cases, inl, inr, ◌≡◌, refl, ap, arith, if◌then◌else◌,
}

abbrev pub Pool : Type 0
Pool = List Bytes

-- The index of an interned literal, or that of a new one, from `i` on.
unfoldable pub index_from : ℕ → Pool → Bytes → ℕ
index_from i [] literal = i
index_from i (s ∷ pool) literal = if bytes_eq s literal then i else index_from (i + 1) pool literal

unfoldable pub insert : Pool → Bytes → Pool
insert [] literal = literal ∷ []
insert (s ∷ pool) literal = if bytes_eq s literal then s ∷ pool else s ∷ insert pool literal

unfoldable pub intern : Pool → Bytes → ℕ × Pool
intern pool literal = (index_from 0 pool literal, insert pool literal)

-- `getTableAttr`.
abbrev pub table_attr : Pool → List Bytes
table_attr pool = pool

-- Every entry of the pool stands at the same index of the table.
abbrev pub Extends : Pool → List Bytes → Type 0
Extends pool table = (i : ℕ) (s : Bytes) → get_elem? pool i ≡ some s → get_elem? table i ≡ some s

pub Extends-trans : (p q r : Pool) → Extends p q → Extends q r → Extends p r
Extends-trans p q r f g i s e = g i s (f i s e)

insert-Extends : (pool : Pool) (literal : Bytes) → Extends pool (insert pool literal)
unfolding insert
insert-Extends [] literal i s e = absurd (ground arith)
insert-Extends (p ∷ pool) literal zero s e = elim (Bool-cases (bytes_eq p literal)) [
  | inl same ↦ rw same e
  | inr other ↦ rw other e
]
insert-Extends (p ∷ pool) literal (suc i) s e = elim (Bool-cases (bytes_eq p literal)) [
  | inl same ↦ rw same e
  | inr other ↦ rw other (insert-Extends pool literal i s e)
]

index_from_shift :
    (i : ℕ) (pool : Pool) (literal : Bytes)
    → index_from i pool literal ≡ i + index_from 0 pool literal
unfolding index_from
index_from_shift i [] literal = omega arith
index_from_shift i (p ∷ pool) literal =
    ground (arith, index_from_shift (i + 1) pool literal, index_from_shift 1 pool literal)

index_from-suc :
    (pool : Pool) (literal : Bytes) → index_from 1 pool literal ≡ suc (index_from 0 pool literal)
index_from-suc pool literal = omega (arith, index_from_shift 1 pool literal)

get_elem?-insert :
    (pool : Pool) (literal : Bytes)
    → get_elem? (insert pool literal) (index_from 0 pool literal) ≡ some literal
unfolding insert index_from
get_elem?-insert [] literal = refl
get_elem?-insert (p ∷ pool) literal = elim (Bool-cases (bytes_eq p literal)) [
  | inl same ↦ rw same (ap {B = Option Bytes} some (bytes_eq→eq p literal same))
  | inr other ↦ rw (other, index_from-suc pool literal) (get_elem?-insert pool literal)
]

-- Interning returns an index at which the new pool holds the literal, and moves no entry.
pub intern_lem :
    (pool : Pool) (literal : Bytes)
    → let (i, pool') = intern pool literal in
      (get_elem? pool' i ≡ some literal) × Extends pool pool'
unfolding intern
intern_lem pool literal = (get_elem?-insert pool literal, insert-Extends pool literal)

-- A table that begins with the entry of a pool.
head-is :
    (s : Bytes) (table : List Bytes)
    → get_elem? table 0 ≡ some s
    → (rest : List Bytes) × (table ≡ s ∷ rest)
head-is s [] e = absurd (ground arith)
head-is s (t ∷ rest) e = (rest, ground arith)

-- Where the entries of a pool are kept, its literals are found at the same places.
insert-kept :
    (pool : Pool) (table : List Bytes) (literal : Bytes)
    → Extends (insert pool literal) table
    → (index_from 0 table literal ≡ index_from 0 pool literal) × (insert table literal ≡ table)
unfolding insert index_from
insert-kept [] table literal ext =
    let (rest, is) = head-is literal table (ext 0 literal refl) in
    rw is (rw (bytes_eq_refl literal) (refl, refl))
insert-kept (p ∷ pool) table literal ext = elim (Bool-cases (bytes_eq p literal)) [
  | inl same ↦
      let (rest, is) = head-is p table (ext 0 p (rw same refl)) in rw is (rw same (refl, refl))
  | inr other ↦
      let (rest, is) = head-is p table (ext 0 p (rw other refl)) in
      let kept : Extends (insert pool literal) rest =
        λ i s e. (rw is at ext (suc i) s) (rw other e) in
      let (index, same) = insert-kept pool rest literal kept in
      rw is (
        rw (other, index_from-suc rest literal, index_from-suc pool literal)
          (ap suc index, ap (◌∷◌ p) same))
]

-- A literal that was interned is interned again under the same index, and leaves the pool as it
-- is, in every later pool: one that keeps the entries of the pool that it was interned into.
pub intern_again :
    (pool later : Pool) (literal : Bytes)
    → Extends (intern pool literal).1 later
    → intern later literal ≡ ((intern pool literal).0, later)
unfolding intern
intern_again pool later literal ext =
    let (index, same) = insert-kept pool later literal ext in ground (arith, index, same)
