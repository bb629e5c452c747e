-- ===== src/Ebpf.antt =====
-- pkg/ebpf: the kernel program and its manager.
pub mod Sockops
pub mod Restore
pub mod Threshold
pub mod Established
pub mod Manager
pub mod Excluded
pub mod Pushed
pub mod Events
pub mod Switch
pub mod Lifecycle
pub mod Reader
mod Tests
