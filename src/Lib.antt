-- ===== src/Lib.antt =====
-- json-schema-mlir compiles JSON Schema documents to MLIR.
--
-- The front end (lib/Schema/Import) lexes and parses a schema, builds a tree of schema nodes and
-- emits operations of the `schema` dialect: `schema.validate_string`, `schema.validate_number` and
-- `schema.struct`, whose `i1` results are combined by `arith.andi`. The canonicalizer rewrites these
-- to fewer and stronger validators, and the lowering turns each into calls of a runtime.
--
-- - Ops: the operations of include/Schema/SchemaOps.td as records; Ops/Verify: the verifiers of
--   lib/Schema/SchemaOps.cpp, each with the errors in the order in which the code finds them.
-- - Semantics: what a constraint on strings or numbers accepts, as the documentation of the dialect
--   states it. It is the specification of both the canonicalizer and the lowering.
-- - Ir: a function body as a list of operations in program order, and the runs of a body: values at
--   run time that every operation's result agrees with. In a run, the verdict of a `schema.struct` is
--   what the passes take it for, the conjunction of the kind, the required fields and the verdicts of
--   all fields; what SchemaOps.td says of missing properties is in Lower/Struct/Documented.
-- - Canonicalize: lib/Schema/SchemaCanonicalizerPass.cpp. StringLattice and NumberLattice are the
--   constraint sets, Conjuncts is `Conjunct`, `classify`, `collectConjuncts` and `absorb`, Fold is
--   `FoldConjunctiveValidations`, Drop is `DropSubsumedStructValidators`, Normalize the two
--   normalization patterns, and Verified relates the meets to the verifiers.
-- - Lower: lib/Schema/LowerToStandard.cpp. Pool is `StringPool`, Expr the expressions that are
--   created, with their evaluation, and Number, String and Struct are the conversion patterns.
-- - Lexer: lib/Schema/Import/Lexer.cpp and include/Schema/Import/Lexer.h. Source is the buffer and
--   the positions, Strings, Numbers, Words and Comments are the loops of the lexer, and Tokenize is
--   `lexToken` and `tokenize`. A cursor holds the bytes from its position on.
-- - Ast: include/Schema/Import/AST.h and lib/Schema/Import/AST.cpp. The classes are the constructors
--   of mutual data types; Names is the names of the JSON types, Walk
--   `getChildren` and `walk`, and Quote `printQuoted`.
-- - Parser: lib/Schema/Import/Parser.cpp and include/Schema/Import/Parser.h. State is the token stream
--   and the diagnostics, Loops the generic objects, arrays and separators, Values `skipValue` and
--   `parseNumber`, Keywords and Schemas the parsers of keywords and schemas; Steps, Numbers, Shape and
--   Trees are what proofs follow through a run, and Document and Stream are about whole documents.
--   Grammar is the grammar at the head of Parser.cpp, and Sound and Complete relate the parser to it. Vocabulary
--   has the words for each kind of keyword.
-- - Importer: of lib/Schema/Import/Importer.cpp, Names is the pointer tokens and the function names,
--   Kinds is `collectKind` and `checkApplies`, and Bounds the number bounds of `checkBounds`.
-- - FrontEnd: `runFrontEnd` of lib/Schema/Import/Translation.cpp up to the importer: the tokens of the
--   lexer go to the parser, and the tree of a parse without errors goes on.
-- - Float and Runtime: `double` and the runtime, which are parameters. Float/Halves and
--   Tests/Documents are types that meet what is assumed of them.
-- - Tests: the theorems at concrete inputs.
--
-- Fuel: `collect_conjuncts` takes one unit for each level of the tree; with more than the rank of a
-- value, which falls from a value to its operands, it flattens the whole tree. The loops of the
-- lexer take one unit more than there are bytes left, since every round but the last consumes one.
-- `walk` takes one unit for each level of the tree. The loops of the parser over members and elements
-- take one unit more than there are tokens left, since a round that goes on consumes a comma; a
-- recovery ends in front of a separator, so the loop of `parseSeparator` takes two. The nesting depth
-- of the parser is the recursion on the levels left up to `kMaxDepth`.
--
-- A quotient of doubles may be rounded. Where a proof needs that the quotients by a divisor and by
-- its multiple are exact, the theorem says so, since `isIntegralMultipleOf` is then transitive.
--
-- Not modelled: what `additional_properties` says of a document, which the lowering does not read and
-- the runtime has no call for; source locations, the text of diagnostics, the registration of passes and types
-- and the greedy driver, which are MLIR's; the operations that the importer emits, and the trace of
-- the front end;
-- the command-line tools. Offsets do not wrap: buffers are shorter than 2^32 bytes.
pub mod Prelude
pub mod Float
pub mod Runtime
pub mod Ops
pub mod Semantics
pub mod Ir
pub mod Canonicalize
pub mod Lower
pub mod Lexer
pub mod Ast
pub mod Parser
pub mod Importer
pub mod FrontEnd
pub mod Tests
