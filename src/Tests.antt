-- ===== src/Tests.antt =====
-- Runs of the model at concrete inputs.
pub mod Fixtures
mod Machine
mod ScalarFixtures
pub mod ParserRuns
pub mod CompilerRuns
pub mod Nested
pub mod MainRuns
pub mod OperationRuns
pub mod ScopeRuns
pub mod RefinementRuns
