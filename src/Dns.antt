-- ===== src/Dns.antt =====
-- pkg/dns: the DNS server and the system's DNS configuration.
pub mod Server
pub mod Queue
pub mod Resolver
pub mod Fallback
pub mod System
pub mod Lines
pub mod Restore
pub mod Cycle
mod ToolTests
mod Tests
pub mod Darwin
pub mod MacCycle
pub mod Windows
pub mod WinCycle
