-- ===== src/Importer.antt =====
-- lib/Schema/Import/Importer.cpp: the names that the importer makes, the instance kinds that it collects
-- and the bounds that it checks before it emits operations.
pub mod Names
pub mod Kinds
pub mod Bounds
