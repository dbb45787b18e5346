-- ===== src/Compiler.antt =====
-- mlir-backend/compiler.hpp: the lowering of a program to MLIR.
pub mod Monad
pub mod Env
pub mod Mlir
pub mod State
pub mod Nesting
pub mod Missing
pub mod Types
pub mod Values
pub mod Scalars
pub mod Tensors
pub mod Blackboxes
pub mod Kernels
pub mod Scans
pub mod Loops
pub mod Lower
pub mod Functions
pub mod Definition
pub mod Termination
pub mod Completeness
pub mod Creations
pub mod Idempotence
pub mod Scope
pub mod Callees
pub mod Keeps
pub mod Refinement
