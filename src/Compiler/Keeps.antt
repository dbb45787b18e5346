-- ===== src/Compiler/Keeps.antt =====
-- Invariants of the lowering, where the builder stands and what the state holds: a rule for each way in
-- which compiler.hpp builds an action. An action that keeps an invariant also never runs out of
-- fuel where the invariant holds.
mod Rules
mod Basic
mod Operations
mod Blackboxes
mod Kernels
mod Loops
pub mod Lower
pub mod Functions
pub use Rules.*
pub use Basic.*
