-- ===== src/Phase.antt =====
-- Driving a phase (cli/src/phase.rs).
pub mod Names
pub mod Pass
pub mod Capture
pub mod Reap
pub mod Wait
pub mod Done
pub mod Resume
pub mod Workspace
pub mod Launch
pub mod Start
pub mod Composer
pub mod Send
pub mod Rehydrate
pub mod Saves
