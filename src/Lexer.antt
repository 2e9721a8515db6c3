-- ===== src/Lexer.antt =====
-- lib/Schema/Import/Lexer.cpp and include/Schema/Import/Lexer.h: the JSON lexer.
pub mod Source
pub mod Token
pub mod Words
pub mod Strings
pub mod Numbers
pub mod Comments
pub mod Tokenize
pub mod Moves
