-- ===== src/Parser.antt =====
-- lib/Schema/Import/Parser.cpp and include/Schema/Import/Parser.h: the recursive-descent parser.
pub mod State
pub mod Loops
pub mod Values
pub mod Names
pub mod Vocabulary
pub mod Keywords
pub mod Schemas
pub mod Grammar
pub mod Steps
pub mod Numbers
pub mod Shape
pub mod Trees
pub mod Document
pub mod Stream
pub mod Sound
pub mod Complete
