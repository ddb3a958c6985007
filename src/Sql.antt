-- ===== src/Sql.antt =====
-- src/sql_parser.cpp: the parser of SQL predicates, from text to the nodes of the JIT library.
pub mod Result
pub mod Tokenizer
pub mod Parser
mod Tests
