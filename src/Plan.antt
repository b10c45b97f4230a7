-- ===== src/Plan.antt =====
-- The planner: crates/repolith-core/src/plan.rs. `Layers` orders the actions, `Reasons` says why an
-- action is stale, and `Compute` puts the two together.
pub mod Layers
pub mod Reasons
pub mod Compute
