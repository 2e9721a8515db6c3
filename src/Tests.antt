-- ===== src/Tests.antt =====
-- Witnesses: the theorems at concrete inputs.
pub mod Documents
pub mod Classes
pub mod Lattices
pub mod Rewrites
pub mod Lowering
pub mod Lexing
pub mod Trees
pub mod Verifiers
pub mod Parsing
pub mod Importing
pub mod FrontEnds
