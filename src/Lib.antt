-- ===== src/Lib.antt =====
-- repolith keeps a stack of repositories built. A manifest (`repolith.toml`) declares nodes and their
-- actions; the factory turns it into actions that depend on one another; the planner puts the
-- actions into layers and compares the hash of each action's inputs with the last event in the
-- cache; the orchestrator executes the stale actions of each layer concurrently and writes the
-- events of a layer to the cache before it starts the next.
--
-- The files and the code that they model:
-- - Prelude and its children: Boolean tests, lists, association lists, sorting, texts and integers.
--   A map of the source is an association list, a set is a list with a membership test, a string is
--   the list of its code points, and a path is its text, with Unix separators.
-- - Types, Action, Cache: crates/repolith-core/src/types.rs, action.rs and cache.rs. An action is a
--   record of what its methods answer in the run at hand. A cache is a record of operations on a
--   state `S`; Cache/Contract says what a backend promises, as a record of laws.
-- - Cache/Namespaced: `NamespacedCache` of crates/repolith-cache/src/namespaced.rs.
-- - Cache/Sqlite: `SqliteCache` of crates/repolith-cache/src/sqlite.rs, over the table of schema.sql.
--   What is called of `rusqlite`, `hex`, `serde_json` and the clock is the record `Driver`, and
--   Cache/Sqlite/Contract says what the code relies on of it.
-- - Sources: crates/repolith-actions/src/source_closure.rs and source_hash.rs. Sources/Closure is the
--   walk over local dependencies; its loop has as fuel the number of turns, of which one for each
--   dependency of each tree is enough. Sources/Digest has the digests: a hasher is the bytes that it
--   was fed, and SHA-256, the walker of a tree and the file system are arguments.
-- - Plan: crates/repolith-core/src/plan.rs. `compute_with_forced` is `layers_of` (Plan/Layers: the two
--   maps, then Kahn's algorithm), then `walk` (Plan/Compute: `probe_layer` and the cascade), with
--   `classify` and the display of reasons in Plan/Reasons. The loop of Kahn's algorithm has as fuel
--   the number of ids, of which each turn removes one at least. A failed index into a map, and the
--   decrement of a count below 0 that wraps in release builds, are written out. The probes of a layer
--   are independent, so each is its action's answer, or `Cancelled` where the token wins the race;
--   the token is a function from the number of the poll.
-- - Manifest: crates/repolith-core/src/manifest.rs. Manifest/Checks has the checks of single fields,
--   Manifest/Actions those of an action, Manifest/Validate `validate` and `from_toml`, and
--   Manifest/ActionIds `action_ids`. The `toml`, `semver` and `url` crates are arguments.
-- - Engine: crates/repolith-engine/src/orchestrator.rs. Engine/Builder has the builder, Engine/Layer
--   `execute_layer`, Engine/Run `execute_plan_observed` and `execute_plan`. The asynchronous runtime is
--   a schedule, the list of turns in which actions get their permits and finish; a turn that the code
--   does not allow gives `none`, so a statement about every schedule is one about every
--   interleaving. The calls of the progress sink (crates/repolith-core/src/progress.rs) are recorded.
--   A shared semaphore is the number of permits that it has for this run; in Engine/Stacks the child
--   stacks of a run draw from it too, and a run is what it still awaits, with a step relation on it.
-- - Factory: `build_actions_from_manifest` of crates/repolith-cli/src/factory.rs, and `expand_tilde` of
--   crates/repolith-actions/src/paths.rs. What the actions do outside the process is an argument.
-- - Actions: crates/repolith-actions/src/cargo_install.rs, git_clone.rs and docker.rs, and
--   `check_status` of util.rs there. What runs outside of the process is the record `Machine`.
-- - Federation: `resolved_manifest` of crates/repolith-engine/src/federation.rs, and `contain_within` of
--   crates/repolith-core/src/paths.rs. The file system is an argument.
-- - Cli/Progress: crates/repolith-cli/src/progress.rs, as a sink that the calls of Engine/Layer are
--   replayed on, with the clock at each of them.
-- - Cli: crates/repolith-cli/src/main.rs. Cli/Setup is how a command sets its orchestrator up, Cli/Sync
--   `repolith sync`, Cli/Status the lines of `repolith status`, Cli/Dates the ages that it shows. The
--   machine of a command is the record `Host`.
-- - Examples: concrete data, and runs of the definitions on it.
--
-- Not modelled: what a subprocess does, the race of `run_with_cancel` with the cancellation and the
-- kill of the process group; how the SQLite database is opened; the Neo4j backend, a remote driver's
-- queries; how the federation action builds a child stack's orchestrator and what it makes of its
-- events; of the command line the parsing of the arguments, the traces, the signal handlers and the
-- timer of the heartbeat. A path that is not UTF-8 has no model. Durations are numbers of milliseconds
-- that the schedule gives, and the logging calls are left out.
mod Prelude
pub mod Types
pub mod Action
pub mod Cache
pub mod Plan
pub mod Manifest
pub mod Engine
pub mod Factory
pub mod Federation
pub mod Sources
pub mod Actions
pub mod Cli
pub mod Examples
