-- ===== src/Cli.antt =====
-- The command line: crates/repolith-cli/src/main.rs, with the progress display.
pub mod Progress
pub mod Setup
pub mod Sync
pub mod Dates
pub mod Status
