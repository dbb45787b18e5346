-- ===== src/Parser.antt =====
-- mlir-backend/ir/parser.hpp: from the parse tree of Futhark.g4 to the abstract syntax. The lexer
-- and the parser are generated from the grammar; the model begins at their tree.
pub mod Numbers
pub mod Tree
pub mod Values
pub mod Operators
pub mod BasicOps
pub mod Visit
