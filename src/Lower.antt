-- ===== src/Lower.antt =====
-- lib/Schema/LowerToStandard.cpp: the lowering of the `schema` operations to arith, scf, math and
-- calls of the runtime.
pub mod Pool
pub mod Expr
pub mod Emit
pub mod Number
pub mod String
pub mod Struct
