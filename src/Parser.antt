-- ===== src/Parser.antt =====
-- parser/: the query language.
pub mod Syntax
pub mod Lexer
pub mod Keywords
pub mod Expr
pub mod Statement
