-- ===== src/Compiler/Refinement.antt =====
-- compiler.hpp: what a body of integer scalars means in Futhark, what the operations that it is
-- lowered to mean in MLIR, and how the two are related.
pub mod Words
pub mod Source
pub mod Target
pub mod Total
pub mod Later
pub mod Operators
pub mod Simulation
pub mod Subexps
pub mod Bindings
pub mod Primitives
pub mod Branches
pub mod Bodies
pub mod Correct
pub mod Signatures
pub mod Functions
pub mod Programs
