-- ===== src/Router.antt =====
-- pkg/router: the router mode.
pub mod Config
pub mod Sane
pub mod Validate
pub mod Flows
pub mod Once
pub mod Packet
pub mod HelloCheck
pub mod Processor
pub mod Target
pub mod Decision
pub mod Gate
pub mod Nftables
pub mod Batch
pub mod Engine
pub mod Lifecycle
pub mod Runner
pub mod Probe
mod Tests
mod EngineTests
