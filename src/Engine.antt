-- ===== src/Engine.antt =====
-- The orchestrator: crates/repolith-engine/src/orchestrator.rs.
pub mod Builder
pub mod Layer
pub mod Run
pub mod Stacks
