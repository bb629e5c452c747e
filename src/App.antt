-- ===== src/App.antt =====
-- cmd/gecit/app: the engines that the command starts, and its flags.
pub mod Engines
pub mod Lifecycle
pub mod Flags
pub mod Cleanup
pub mod CleanupCases
pub mod RouterRun
mod Tests
