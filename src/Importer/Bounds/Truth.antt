-- ===== src/Importer/Bounds/Truth.antt =====
-- Whether the bounds that are reported do exclude each other.
use json_schema_mlir.Prelude.{
  ◌≡◌, arith, Bool, true, false, ◌&&◌, ◌||◌, Bool-cases, inl, inr, Option, none, some,
  if◌then◌else◌,
}
use json_schema_mlir.Float.{Double, IsOrdered}
use json_schema_mlir.Ast.{
  minimum_kind, maximum_kind, exclusive_minimum_kind, exclusive_maximum_kind, Keywords,
}
use json_schema_mlir.Importer.Kinds.{Reports, import_error}
use json_schema_mlir.Importer.Bounds.{
  NumberBound, is_kind, find_number, check_pair, check_number_bounds,
}

module _ {D : Type 0} ⦃d : Double D⦄ where
  -- What JSON Schema says of the bounds: an absent one says nothing.
  abbrev pub above : Option (NumberBound D) → D → Bool
  above none x = true
  above (some l) x =
      if is_kind exclusive_minimum_kind l.info
      then d.lt l.value x
      else d.lt l.value x || d.eq l.value x

  abbrev pub below : Option (NumberBound D) → D → Bool
  below none x = true
  below (some u) x =
      if is_kind exclusive_maximum_kind u.info
      then d.lt x u.value
      else d.lt x u.value || d.eq x u.value

  unfoldable pub within_bounds : Keywords D → D → Bool
  within_bounds ks x =
      (above (find_number minimum_kind ks) x && above (find_number exclusive_minimum_kind ks) x)
      && (below (find_number maximum_kind ks) x && below (find_number exclusive_maximum_kind ks) x)

  module _ (laws : IsOrdered D) where
    -- A pair is reported only if no number is between the two.
    check_pair-fails :
        (l u : Option (NumberBound D)) (s : Reports) (x : D)
        → (check_pair l u s).failed ≡ true
        → (above l x && below u x) ≡ true
        → s.failed ≡ true
    unfolding check_pair import_error
    check_pair-fails none u s x f h = f
    check_pair-fails (some l) none s x f h = f
    check_pair-fails (some l) (some u) s x f h =
        let a = laws.lt_trans l.value x u.value in
        let b = laws.lt-eq l.value x u.value in
        let c = laws.eq-lt l.value x u.value in
        let e = laws.eq_trans l.value x u.value in ground arith

    -- Four pairs, of which the first was looked at first.
    check_pairs-fails :
        (a b m n : Option (NumberBound D)) (s : Reports) (x : D)
        → s.failed ≡ false
        → (check_pair b n (check_pair b m (check_pair a n (check_pair a m s)))).failed ≡ true
        → ((above a x && above b x) && (below m x && below n x)) ≡ false
    check_pairs-fails a b m n s x h f =
        elim (Bool-cases ((above a x && above b x) && (below m x && below n x))) [
          | inl e ↦
              let g = check_pair-fails b n _ x f (ground arith) in
              let i = check_pair-fails b m _ x g (ground arith) in
              let j = check_pair-fails a n _ x i (ground arith) in
              let k = check_pair-fails a m s x j (ground arith) in absurd (ground arith)
          | inr e ↦ e
        ]

    -- If `checkBounds` reports an error about number bounds where none was reported before, then no
    -- number is within all of the bounds of the schema.
    pub check_number_bounds_lem :
        (ks : Keywords D) (s : Reports) (x : D)
        → s.failed ≡ false
        → (check_number_bounds ks s).failed ≡ true
        → within_bounds ks x ≡ false
    unfolding check_number_bounds within_bounds
    check_number_bounds_lem ks s x h f =
        check_pairs-fails (find_number minimum_kind ks) (find_number exclusive_minimum_kind ks)
          (find_number maximum_kind ks) (find_number exclusive_maximum_kind ks) s x h f
