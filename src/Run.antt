-- ===== src/Run.antt =====
-- The run state (cli/src/run.rs): phases and their panes, the run record, and what may be asked of it.
pub mod Phases
pub mod State
pub mod Lookup
pub mod Lifecycle
pub mod Reap
pub mod Rehydrate
pub mod Retired
pub mod Disk
