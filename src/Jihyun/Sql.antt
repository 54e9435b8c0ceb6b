-- ===== src/Jihyun/Sql.antt =====
-- parser.c and include/ast.h: from the SQL text to statements.
pub mod Ast
pub mod Scan
pub mod Quotes
pub mod Parse
