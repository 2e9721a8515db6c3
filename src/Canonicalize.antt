-- ===== src/Canonicalize.antt =====
-- lib/Schema/SchemaCanonicalizerPass.cpp: the constraint lattices and the rewrite patterns.
pub mod Bounds
pub mod StringLattice
pub mod NumberLattice
pub mod Conjuncts
pub mod Fold
pub mod Drop
pub mod Normalize
pub mod Verified
