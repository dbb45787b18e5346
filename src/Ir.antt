-- ===== src/Ir.antt =====
-- The abstract syntax of the program that is lowered: mlir-backend/ir.
pub mod Primitive
pub mod Core
pub mod Gpu
pub mod Syntax
